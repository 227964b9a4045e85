-- ===== src/Notify/Pack.antt =====
-- What the chunks of a text hold, and how long they are.
use mathlib.Core.List.{append-nil, append_assoc}
use toss_api_quant_trading.Notify.Text.{Text, join, split_lines, glue, ends_line}
use toss_api_quant_trading.Notify.Chunks.{chunks, pack_lines, last_chunk}
use toss_api_quant_trading.Prelude.{
  ℕ, List, [], ◌∷◌, ◌++◌, leb, ltb, length, ◌+◌, ◌≡◌, ◌≤◌, max, refl, ap, ◌∙◌, sym, inl, inr, arith,
  All, Bool-cases, length-append, ltb-false, leb→le,
}

join-glue : (c : ℕ) (ls : List Text) → join (glue c ls) ≡ c ∷ join ls
join-glue c [] = refl
join-glue c (l ∷ ls) = refl

-- The lines of a text, one after the other, are the text.
pub join-split_lines : (t : Text) → join (split_lines t) ≡ t
unfolding split_lines
join-split_lines [] = refl
join-split_lines (c ∷ rest) = elim (Bool-cases (ends_line c rest)) [
  | inl e ↦ rw e (ap (λ (u : Text). c ∷ u) (join-split_lines rest))
  | inr e ↦ rw e (join-glue c (split_lines rest) ∙ ap (λ (u : Text). c ∷ u) (join-split_lines rest))
]

join-last_chunk : (t : Text) → join (last_chunk t) ≡ t
join-last_chunk [] = refl
join-last_chunk (c ∷ t) = append-nil (c ∷ t)

join-pack_lines :
    (size : ℕ) (lines : List Text) (cur : Text)
    → join (pack_lines size lines cur) ≡ cur ++ join lines
unfolding pack_lines
join-pack_lines size [] cur = join-last_chunk cur ∙ sym (append-nil cur)
join-pack_lines size (line ∷ lines) cur = elim (Bool-cases (ltb size (length cur + length line))) [
  | inl e ↦ rw e (ap (λ (u : Text). cur ++ u) (join-pack_lines size lines line))
  | inr e ↦ rw e (join-pack_lines size lines (cur ++ line) ∙ append_assoc cur line (join lines))
]

abbrev pub Short : ℕ → Text → Type 0
Short size t = length t ≤ size

-- The length of the longest line.
unfoldable pub longest : List Text → ℕ
longest [] = 0
longest (l ∷ ls) = max (length l) (longest ls)

All-weaken : (m n : ℕ) (ts : List Text) → m ≤ n → All (Short m) ts → All (Short n) ts
All-weaken m n [] h k = tt
All-weaken m n (t ∷ ts) h (k, ks) = (omega arith, All-weaken m n ts h ks)

longest-Short : (ls : List Text) → All (Short (longest ls)) ls
unfolding longest
longest-Short [] = tt
longest-Short (l ∷ ls) = (omega arith, All-weaken _ _ ls (omega arith) (longest-Short ls))

last_chunk-Short : (size : ℕ) (t : Text) → length t ≤ size → All (Short size) (last_chunk t)
last_chunk-Short size [] h = tt
last_chunk-Short size (c ∷ t) h = (h, tt)

-- A bound that is not below the size, and holds of the lines, holds of what is packed.
pack_lines-Short :
    (size bound : ℕ) (lines : List Text) (cur : Text)
    → size ≤ bound
    → All (Short bound) lines
    → length cur ≤ bound
    → All (Short bound) (pack_lines size lines cur)
unfolding pack_lines
pack_lines-Short size bound [] cur le h k = last_chunk-Short bound cur k
pack_lines-Short size bound (line ∷ lines) cur le (h, hs) k =
    elim (Bool-cases (ltb size (length cur + length line))) [
      | inl e ↦ rw e (k, pack_lines-Short size bound lines line le hs h)
      | inr e ↦ rw e (
          pack_lines-Short size bound lines (cur ++ line) le hs
            (omega (arith, length-append cur line, ltb-false _ _ e)))
    ]

-- The messages that a text is cut into, one after the other, are the text, and none is longer than
-- the limit or, where a single line exceeds the limit, than the longest line.
pub chunks-join :
    (text : Text) (size : ℕ)
    → (join (chunks text size) ≡ text)
      × All (Short (max size (longest (split_lines text)))) (chunks text size)
unfolding chunks
chunks-join text size = elim (Bool-cases (leb (length text) size)) [
  | inl e ↦ rw e (append-nil text, (omega (arith, leb→le _ _ e), tt))
  | inr e ↦
      let bound = max size (longest (split_lines text)) in
      rw e (
        join-pack_lines size (split_lines text) [] ∙ join-split_lines text,
        pack_lines-Short size bound (split_lines text) [] (omega arith)
            (All-weaken _ _ (split_lines text) (omega arith) (longest-Short (split_lines text)))
            (omega arith),
      )
]
