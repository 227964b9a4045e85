-- ===== src/Toss/Queries/Chunks.antt =====
-- The chunks of a price call.
use toss_api_quant_trading.Toss.Queries.{chunks_of, drop}
use toss_api_quant_trading.Prelude.{
  take, ℕ, List, String, length, ◌<◌, ◌∷◌, ◌++◌, ◌≤◌, arith, [], ◌≡◌, All, suc, ap, zero, ◌∙◌, refl,
  length-take,
}

abbrev pub joined : List (List String) → List String
joined [] = []
joined (c ∷ cs) = c ++ joined cs

take-drop : (n : ℕ) (xs : List String) → take n xs ++ drop n xs ≡ xs
take-drop zero xs = refl
take-drop (suc n) [] = refl
take-drop (suc n) (x ∷ xs) = ap (λ r. x ∷ r) (take-drop n xs)

length-drop : (n : ℕ) (xs : List String) → length (drop n xs) ≤ length xs
length-drop zero xs = omega arith
length-drop (suc n) [] = omega arith
length-drop (suc n) (x ∷ xs) = omega (arith, length-drop n xs)

-- Chunks of at most `size` symbols, for a positive size and enough fuel, have every symbol once, in
-- its place.
pub chunks_of-joined :
    (fuel size : ℕ) (xs : List String)
    → 0 < size
    → length xs ≤ fuel
    → (joined (chunks_of fuel size xs) ≡ xs) × All (λ c. length c ≤ size) (chunks_of fuel size xs)
unfolding chunks_of
chunks_of-joined fuel size [] h k = (refl, _)
chunks_of-joined zero size (x ∷ xs) h k = absurd (omega arith)
chunks_of-joined (suc fuel) zero (x ∷ xs) h k = absurd (omega arith)
chunks_of-joined (suc fuel) (suc n) (x ∷ xs) h k =
    let (a, b) = chunks_of-joined fuel (suc n) (drop n xs) h (omega (arith, length-drop n xs)) in
    (
      ap (λ r. take (suc n) (x ∷ xs) ++ r) a ∙ take-drop (suc n) (x ∷ xs),
      (length-take (suc n) (x ∷ xs), b),
    )
