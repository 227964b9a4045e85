-- ===== src/Candles/Pages.antt =====
-- The turns of the walk through the pages of candles.
use toss_api_quant_trading.Toss.Client.{Ending, raised, returned}
use toss_api_quant_trading.Candles.{Candle, earliest}
use toss_api_quant_trading.Candles.Paging.{
  Walk, follow, on_candles, goes_on, reached, took, Turn, CandlePage, turn, walk, iter_candles,
  on_page, first_walk, max_candles_per_call, finishes,
}
use toss_api_quant_trading.Prelude.{
  Option, String, List, ◌≡◌, ◌<◌, some, Bool-cases, ◌∷◌, str_eq, ◌||◌, member, inl, inr, none,
  arith, [], ℕ, sym, ap, ◌⊎◌, ◌-◌, suc, ltb, ltb→lt, zero, min, refl,
}

-- The candles that a walk has fetched when a turn goes on.
fetched_of : Turn → ℕ
fetched_of (finishes ending) = 0
fetched_of (goes_on w) = w.fetched

follow-fetched :
    (cursor : Option String) (w w' : Walk) → follow cursor w ≡ goes_on w' → w'.fetched ≡ w.fetched
unfolding fetched_of
follow-fetched none w w' e = absurd (cc)
follow-fetched (some cursor) w w' e =
    elim (Bool-cases (str_eq cursor "" || member cursor w.seen_cursors)) [
      | inl c ↦ absurd (let f = rw c at e in cc)
      | inr c ↦ let f = rw c at e in sym (ap fetched_of f)
    ]

on_candles-fetched :
    (stop_at : Option String) (cs : List Candle) (cursor : Option String) (w w' : Walk)
    → on_candles stop_at cs cursor w ≡ goes_on w'
    → w.fetched < w'.fetched
on_candles-fetched stop_at [] cursor w w' e = absurd (cc)
on_candles-fetched stop_at (c ∷ cs) cursor w w' e =
    elim (Bool-cases (reached stop_at (earliest (c ∷ cs)))) [
      | inl r ↦ absurd (let f = rw r at e in cc)
      | inr r ↦ let f = follow-fetched cursor (took (c ∷ cs) w) w' (rw r at e) in omega (arith, f)
    ]

on_page-fetched :
    (stop_at : Option String) (answer : Ending CandlePage) (w w' : Walk)
    → on_page stop_at answer w ≡ goes_on w'
    → w.fetched < w'.fetched
on_page-fetched stop_at (raised e) w w' h = absurd (cc)
on_page-fetched stop_at (returned page) w w' h =
    on_candles-fetched stop_at page.candles page.next_before w w' h

Turn-cases :
    (t : Turn) → ((r : Ending (List Candle)) × (t ≡ finishes r)) ⊎ ((w : Walk) × (t ≡ goes_on w))
Turn-cases (finishes r) = inl (r, refl)
Turn-cases (goes_on w) = inr (w, refl)

module _ (server : ℕ → Option String → Ending CandlePage) (max_bars : ℕ)
    (stop_at : Option String) where
  turn-fetched :
      (w w' : Walk)
      → turn server max_bars stop_at w ≡ goes_on w'
      → (w.fetched < max_bars) × (w.fetched < w'.fetched)
  unfolding turn
  turn-fetched w w' e = elim (Bool-cases (ltb w.fetched max_bars)) [
    | inl c ↦ (
      ltb→lt w.fetched max_bars c,
      on_page-fetched stop_at (server (min max_candles_per_call (max_bars - w.fetched)) w.before) w
          w' (rw c at e),
    )
    | inr c ↦ absurd (let f = rw c at e in cc)
  ]

  walk_ends :
      (fuel : ℕ) (w : Walk)
      → max_bars - w.fetched < fuel
      → (r : Ending (List Candle)) × (walk server max_bars stop_at fuel w ≡ some r)
  unfolding walk
  walk_ends zero w h = absurd (omega arith)
  walk_ends (suc fuel) w h = elim (Turn-cases (turn server max_bars stop_at w)) [
    | inl (r, e) ↦ (r, rw (e, walk) refl)
    | inr (w', e) ↦
        let (low, more) = turn-fetched w w' e in
        let (r, done) = walk_ends fuel w' (omega arith) in (r, rw (e, walk) done)
  ]

  -- The walk through the pages of candles ends, with candles or an error, within as many pages as
  -- bars are asked for, whatever pages and cursors the server answers.
  pub iter_candles_ends :
      (r : Ending (List Candle)) × (iter_candles server max_bars stop_at ≡ some r)
  unfolding iter_candles
  iter_candles_ends = walk_ends (suc max_bars) first_walk (omega arith)
