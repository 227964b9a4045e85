-- ===== src/Candles/Kept.antt =====
-- What the table of candles holds after a download.
use toss_api_quant_trading.Prelude.{
  String, Option, List, some, none, ◌≡◌, if◌then◌else◌, ◌∷◌, str_eq, [], ◌&&◌, arith, eq_iff, refl,
  Bool-cases, false, Bool, true, inl, inr, All, ◌∙◌, ap,
}
use toss_api_quant_trading.Candles.{
  put_candle, Candle, CandleRow, overwritten, has_key, put_candles,
}

-- The candle of a key.
unfoldable pub candle_at : String → String → String → List CandleRow → Option Candle
candle_at symbol interval ts [] = none
candle_at symbol interval ts (row ∷ rest) =
    let later = candle_at symbol interval ts rest in
    if has_key symbol interval ts row then some row.candle else later

-- The candle that stands at a key after it was written over what stood there.
abbrev pub written_over : Candle → Option Candle → Candle
written_over c none = c
written_over c (some old) = overwritten c old

-- The row that an INSERT writes.
abbrev pub row_of : String → String → Candle → CandleRow
row_of symbol interval c = record { symbol = symbol; interval = interval; candle = c }

both : (a b : Bool) → a && b ≡ true → (a ≡ true) × (b ≡ true)
both a b e = ground arith

has_key-parts :
    (symbol interval ts : String) (row : CandleRow)
    → has_key symbol interval ts row ≡ true
    → (row.symbol ≡ symbol) × (row.interval ≡ interval) × (row.candle.timestamp ≡ ts)
has_key-parts symbol interval ts row e =
    let (f, c) =
      both (str_eq row.symbol symbol && str_eq row.interval interval)
        (str_eq row.candle.timestamp ts) e in
    let (a, b) = both (str_eq row.symbol symbol) (str_eq row.interval interval) f in
    (
      (eq_iff row.symbol symbol).0 a,
      (eq_iff row.interval interval).0 b,
      (eq_iff row.candle.timestamp ts).0 c,
    )

-- Rows with one key have the same keys.
has_key-same :
    (symbol interval ts : String) (row other : CandleRow)
    → row.symbol ≡ other.symbol
    → row.interval ≡ other.interval
    → row.candle.timestamp ≡ other.candle.timestamp
    → has_key symbol interval ts row ≡ has_key symbol interval ts other
has_key-same symbol interval ts row other a b c = rw (a, b, c) refl

module _ (symbol interval : String) (c : Candle) where
  abbrev written : CandleRow
  written = row_of symbol interval c

  apart :
      (symbol' interval' ts : String) (row : CandleRow)
      → has_key symbol interval c.timestamp row ≡ false
      → has_key symbol' interval' ts written ≡ true
      → has_key symbol' interval' ts row ≡ false
  apart symbol' interval' ts row k e =
      let (a, b, d) = has_key-parts symbol' interval' ts written e in rw (a, b, d) at k

  -- Writing a candle changes its own key and no other.
  pub candle_at-put_candle :
      (symbol' interval' ts : String) (table : List CandleRow)
      → candle_at symbol' interval' ts (put_candle symbol interval c table) ≡ (
          if has_key symbol' interval' ts (row_of symbol interval c)
          then some (written_over c (candle_at symbol interval c.timestamp table))
          else candle_at symbol' interval' ts table)
  unfolding candle_at put_candle
  candle_at-put_candle symbol' interval' ts [] = refl
  candle_at-put_candle symbol' interval' ts (row ∷ rest) =
      elim (Bool-cases (has_key symbol interval c.timestamp row)) [
        | inl k ↦
            let (a, b, d) = has_key-parts symbol interval c.timestamp row k in
            let x = has_key-same symbol' interval' ts row written a b d in
            let y =
              has_key-same symbol' interval' ts (record row { candle = overwritten c row.candle })
                written a b refl in
            elim (Bool-cases (has_key symbol' interval' ts written)) [
              | inl e ↦ rw (k, y, e) refl
              | inr e ↦ rw (k, y, x, e) refl
            ]
        | inr k ↦ elim (Bool-cases (has_key symbol' interval' ts written)) [
          | inl e ↦
              rw
                (
                  k,
                  apart symbol' interval' ts row k e,
                  e,
                  candle_at-put_candle symbol' interval' ts rest,
                  e,
                )
                refl
          | inr e ↦ rw (k, candle_at-put_candle symbol' interval' ts rest, e) refl
        ]
      ]

-- The timestamps of the candles are different.
unfoldable pub AreApart : List Candle → Type 0
AreApart [] = Unit
AreApart (c ∷ cs) = All (λ d. str_eq c.timestamp d.timestamp ≡ false) cs × AreApart cs

and_false : (a b : Bool) → b ≡ false → a && b ≡ false
and_false a b e = ground arith

module _ (symbol interval : String) where
  -- The candle stands where it was written.
  abbrev pub IsStored : List CandleRow → List CandleRow → Candle → Type 0
  IsStored before after c =
      candle_at symbol interval c.timestamp after
      ≡ some (written_over c (candle_at symbol interval c.timestamp before))

  put_candle_other :
      (c : Candle) (ts : String) (table : List CandleRow)
      → str_eq c.timestamp ts ≡ false
      → candle_at symbol interval ts (put_candle symbol interval c table)
        ≡ candle_at symbol interval ts table
  put_candle_other c ts table e =
      let k : has_key symbol interval ts (row_of symbol interval c) ≡ false =
        and_false (str_eq symbol symbol && str_eq interval interval) (str_eq c.timestamp ts) e in
      rw (candle_at-put_candle symbol interval c symbol interval ts table, k) refl

  put_candle_self :
      (c : Candle) (table : List CandleRow) → IsStored table (put_candle symbol interval c table) c
  put_candle_self c table =
      let k : has_key symbol interval c.timestamp (row_of symbol interval c) ≡ true =
        rw
          (
            (eq_iff symbol symbol).1 refl,
            (eq_iff interval interval).1 refl,
            (eq_iff c.timestamp c.timestamp).1 refl,
          )
          refl in
      rw (candle_at-put_candle symbol interval c symbol interval c.timestamp table, k) refl

  put_candles_other :
      (cs : List Candle) (ts : String) (table : List CandleRow)
      → All (λ d. str_eq ts d.timestamp ≡ false) cs
      → candle_at symbol interval ts (put_candles symbol interval cs table)
        ≡ candle_at symbol interval ts table
  unfolding put_candles
  put_candles_other [] ts table h = refl
  put_candles_other (c ∷ cs) ts table (e, h) =
      put_candles_other cs ts (put_candle symbol interval c table) h
      ∙ put_candle_other c ts table (flip ts c.timestamp e)
    where
      flip : (a b : String) → str_eq a b ≡ false → str_eq b a ≡ false
      flip a b e = ground (arith, eq_iff a b, eq_iff b a)

  carried :
      (c : Candle) (cs : List Candle) (before mid after : List CandleRow)
      → ((d : Candle)
          → str_eq c.timestamp d.timestamp ≡ false
          → candle_at symbol interval d.timestamp mid
            ≡ candle_at symbol interval d.timestamp before)
      → All (λ d. str_eq c.timestamp d.timestamp ≡ false) cs
      → All (IsStored mid after) cs
      → All (IsStored before after) cs
  carried c [] before mid after same h k = _
  carried c (d ∷ ds) before mid after same (e, h) (k, ks) =
      (k ∙ ap (λ x. some (written_over d x)) (same d e), carried c ds before mid after same h ks)

  -- Round trip: after candles with different timestamps were written, each of them is read back at
  -- its timestamp, with the currency it had before where it comes without one.
  pub put_candles-IsStored :
      (cs : List Candle) (table : List CandleRow)
      → AreApart cs
      → All (IsStored table (put_candles symbol interval cs table)) cs
  unfolding put_candles AreApart
  put_candles-IsStored [] table h = _
  put_candles-IsStored (c ∷ cs) table (h, hs) =
      let mid = put_candle symbol interval c table in
      let after = put_candles symbol interval cs mid in
      (
        put_candles_other cs c.timestamp mid h ∙ put_candle_self c table,
        carried c cs table mid after (λ d e. put_candle_other c d.timestamp table e) h
            (put_candles-IsStored cs mid hs),
      )
