-- ===== src/Candles/Loaded.antt =====
-- What a query of the table of candles gives after a download.
use toss_api_quant_trading.Prelude.{
  String, Option, List, some, none, ◌≡◌, ◌⊎◌, ◌∷◌, str_eq, [], eq_iff, refl, Bool-cases, false, inl,
  inr, All, ◌∙◌, ap, ◌&&◌, sym,
}
use toss_api_quant_trading.Candles.{
  Candle, CandleRow, put_candles, has_key, in_series, series, between, sort_candles, insert_candle,
  load_candles, text_le, overwritten, coalesce,
}
use toss_api_quant_trading.Candles.Kept.{
  candle_at, AreApart, IsStored, written_over, put_candles-IsStored,
}

-- The candle is one of the list.
abbrev pub In : Candle → List Candle → Type 0
In c [] = ⊥
In c (d ∷ ds) = (c ≡ d) ⊎ In c ds

-- No candle of the list has the timestamp.
abbrev pub Lacks : String → List Candle → Type 0
Lacks ts = All (λ d. str_eq d.timestamp ts ≡ false)

-- The currency that a candle has after it was written: its own, or else the one of the candle that
-- was there, or else none.
pub data CurrencyOf (c : Candle) (before : List Candle) : Option String → Type 0 where
  its_own : (x : String) → c.currency ≡ some x → CurrencyOf c before (some x)
  as_before :
      (old : Candle)
      → c.currency ≡ none
      → In old before
      → old.timestamp ≡ c.timestamp
      → CurrencyOf c before old.currency
  none_known : c.currency ≡ none → Lacks c.timestamp before → CurrencyOf c before none

-- A candle is answered, with its prices and its volume, among the candles `after`.
pub record IsAnswered (before after : List Candle) (c : Candle) : Type 0 where
  pub row : Candle
  pub answered : In row after
  pub timestamp : row.timestamp ≡ c.timestamp
  pub open_price : row.open_price ≡ c.open_price
  pub high : row.high ≡ c.high
  pub low : row.low ≡ c.low
  pub close : row.close ≡ c.close
  pub volume : row.volume ≡ c.volume
  pub currency : CurrencyOf c before row.currency

In-insert_candle : (x c : Candle) (ds : List Candle) → In x (c ∷ ds) → In x (insert_candle c ds)
unfolding insert_candle
In-insert_candle x c [] h = h
In-insert_candle x c (d ∷ ds) h = elim (Bool-cases (text_le c.timestamp d.timestamp)) [
  | inl e ↦ rw e h
  | inr e ↦ rw e (past_first (In-insert_candle x c ds) h)
]
  where
    past_first :
        (In x (c ∷ ds) → In x (insert_candle c ds))
        → In x (c ∷ d ∷ ds)
        → In x (d ∷ insert_candle c ds)
    past_first f (inl p) = inr (f (inl p))
    past_first f (inr (inl p)) = inl p
    past_first f (inr (inr p)) = inr (f (inr p))

In-sort_candles : (x : Candle) (cs : List Candle) → In x cs → In x (sort_candles cs)
unfolding sort_candles
In-sort_candles x [] h = h
In-sort_candles x (c ∷ cs) (inl p) = In-insert_candle x c (sort_candles cs) (inl p)
In-sort_candles x (c ∷ cs) (inr p) =
    In-insert_candle x c (sort_candles cs) (inr (In-sort_candles x cs p))

Lacks-insert_candle :
    (ts : String) (c : Candle) (ds : List Candle)
    → Lacks ts (c ∷ ds)
    → Lacks ts (insert_candle c ds)
unfolding insert_candle
Lacks-insert_candle ts c [] h = h
Lacks-insert_candle ts c (d ∷ ds) (p, (q, h)) =
    elim (Bool-cases (text_le c.timestamp d.timestamp)) [
      | inl e ↦ rw e (p, (q, h))
      | inr e ↦ rw e (q, Lacks-insert_candle ts c ds (p, h))
    ]

Lacks-sort_candles : (ts : String) (cs : List Candle) → Lacks ts cs → Lacks ts (sort_candles cs)
unfolding sort_candles
Lacks-sort_candles ts [] h = h
Lacks-sort_candles ts (c ∷ cs) (p, h) =
    Lacks-insert_candle ts c (sort_candles cs) (p, Lacks-sort_candles ts cs h)

between-all : (cs : List Candle) → between none none cs ≡ cs
unfolding between
between-all [] = refl
between-all (c ∷ cs) = ap (λ ds. c ∷ ds) (between-all cs)

module _ (symbol interval : String) where
  abbrev answers : List CandleRow → List Candle
  answers table = load_candles symbol interval none none table

  has_key-split :
      (ts : String) (row : CandleRow)
      → has_key symbol interval ts row
        ≡ (in_series symbol interval row && str_eq row.candle.timestamp ts)
  has_key-split ts row = refl

  candle_at-series :
      (ts : String) (table : List CandleRow) (c : Candle)
      → candle_at symbol interval ts table ≡ some c
      → In c (series symbol interval table) × (c.timestamp ≡ ts)
  unfolding candle_at series
  candle_at-series ts [] c h = absurd (cc)
  candle_at-series ts (row ∷ rest) c h = elim (Bool-cases (in_series symbol interval row)) [
    | inl e ↦ elim (Bool-cases (str_eq row.candle.timestamp ts)) [
      | inl k ↦
          let found : some row.candle ≡ some c = rw (e, k) at h in
          let same : row.candle ≡ c = cc in
          rw e (
            inl (sym same),
            ap (λ (d : Candle). d.timestamp) (sym same) ∙ (eq_iff row.candle.timestamp ts).0 k,
          )
      | inr k ↦
          let later : candle_at symbol interval ts rest ≡ some c = rw (e, k) at h in
          let (there, at) = candle_at-series ts rest c later in rw e (inr there, at)
    ]
    | inr e ↦
        let later : candle_at symbol interval ts rest ≡ some c = rw e at h in
        let (there, at) = candle_at-series ts rest c later in rw e (there, at)
  ]

  candle_at-Lacks :
      (ts : String) (table : List CandleRow)
      → candle_at symbol interval ts table ≡ none
      → Lacks ts (series symbol interval table)
  unfolding candle_at series
  candle_at-Lacks ts [] h = _
  candle_at-Lacks ts (row ∷ rest) h = elim (Bool-cases (in_series symbol interval row)) [
    | inl e ↦ elim (Bool-cases (str_eq row.candle.timestamp ts)) [
      | inl k ↦ let found : some row.candle ≡ none = rw (e, k) at h in absurd (cc)
      | inr k ↦
          let later : candle_at symbol interval ts rest ≡ none = rw (e, k) at h in
          rw e (k, candle_at-Lacks ts rest later)
    ]
    | inr e ↦
        let later : candle_at symbol interval ts rest ≡ none = rw e at h in
        rw e (candle_at-Lacks ts rest later)
  ]

  candle_at-In :
      (ts : String) (table : List CandleRow) (c : Candle)
      → candle_at symbol interval ts table ≡ some c
      → In c (answers table) × (c.timestamp ≡ ts)
  unfolding load_candles
  candle_at-In ts table c h =
      let (there, at) = candle_at-series ts table c h in
      (rw (between-all (series symbol interval table)) (In-sort_candles c _ there), at)

  candle_at-none :
      (ts : String) (table : List CandleRow)
      → candle_at symbol interval ts table ≡ none
      → Lacks ts (answers table)
  unfolding load_candles
  candle_at-none ts table h =
      rw (between-all (series symbol interval table))
        (Lacks-sort_candles ts _ (candle_at-Lacks ts table h))

  IsAnswered-written :
      (c : Candle) (before after : List CandleRow) (old : Option Candle)
      → candle_at symbol interval c.timestamp before ≡ old
      → candle_at symbol interval c.timestamp after ≡ some (written_over c old)
      → IsAnswered (answers before) (answers after) c
  IsAnswered-written c before after none e h = record {
    row = c;
    answered = (candle_at-In c.timestamp after c h).0;
    timestamp = refl;
    open_price = refl;
    high = refl;
    low = refl;
    close = refl;
    volume = refl;
    currency = currency_fresh c.currency refl;
  }
    where
      currency_fresh : (o : Option String) → c.currency ≡ o → CurrencyOf c (answers before) o
      currency_fresh (some x) q = its_own x q
      currency_fresh none q = none_known q (candle_at-none c.timestamp before e)
  IsAnswered-written c before after (some old) e h = record {
    row = overwritten c old;
    answered = (candle_at-In c.timestamp after (overwritten c old) h).0;
    timestamp = refl;
    open_price = refl;
    high = refl;
    low = refl;
    close = refl;
    volume = refl;
    currency = currency_over c.currency refl;
  }
    where
      currency_over :
          (o : Option String)
          → c.currency ≡ o
          → CurrencyOf c (answers before) (coalesce o old.currency)
      currency_over (some x) q = its_own x q
      currency_over none q =
          let (there, at) = candle_at-In c.timestamp before old e in as_before old q there at

  IsAnswered-All :
      (cs : List Candle) (before after : List CandleRow)
      → All (IsStored symbol interval before after) cs
      → All (IsAnswered (answers before) (answers after)) cs
  IsAnswered-All [] before after h = _
  IsAnswered-All (c ∷ cs) before after (h, hs) =
      (IsAnswered-written c before after _ refl h, IsAnswered-All cs before after hs)

  -- Round trip: after candles with different timestamps were written, a query of the series answers
  -- each of them with its prices and its volume, and with its currency, or else the one that a query
  -- before answered for its timestamp, or else none.
  pub load_candles-put_candles :
      (cs : List Candle) (table : List CandleRow)
      → AreApart cs
      → All
          (IsAnswered
            (load_candles symbol interval none none table)
            (load_candles symbol interval none none (put_candles symbol interval cs table)))
          cs
  load_candles-put_candles cs table h =
      IsAnswered-All cs table (put_candles symbol interval cs table)
        (put_candles-IsStored symbol interval cs table h)
