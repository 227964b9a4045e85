-- ===== src/Toss/RateLimit.antt =====
-- src/tqt/toss/ratelimit.py: the token buckets. The monotonic clock and the Korean wall clock (in
-- seconds of the day) are arguments, one reading of each for a pass of `acquire`; locks and the
-- dashboard's view are left out.
pub mod Bounds
pub mod Progress
mod Tests
use toss_api_quant_trading.Prelude.Dict.{Dict, lookup, get_or, insert}
use toss_api_quant_trading.Decimal.{
  Decimal, dmax, nat, frac, ◌⊗◌, is_zero, lt, le, ◌⊖◌, ◌⊕◌, ◌⊘◌, dmin,
}
use toss_api_quant_trading.Prelude.{
  String, Option, ℕ, none, ◌∷◌, some, if◌then◌else◌, suc, leb, [], ◌&&◌, zero,
}

pub record Group : Type 0 where
  pub tps : Decimal
  pub peak_tps : Option Decimal
  pub peak_window : Option (ℕ × ℕ)

unfoldable pub limit_at : Group → ℕ → Decimal
limit_at g now = elim (g.peak_tps) [
  | none ↦ g.tps
  | some peak ↦ elim (g.peak_window) [
    | none ↦ g.tps
    | some (start, stop) ↦ if leb start now && leb now stop then peak else g.tps
  ]
]

abbrev pub flat : ℕ → Group
flat n = record { tps = nat n; peak_tps = none; peak_window = none }

-- 09:00 to 09:10
abbrev pub open_window : ℕ × ℕ
open_window = (32400, 33000)

abbrev pub groups : Dict Group
groups =
    ("AUTH", flat 5)
    ∷ ("ACCOUNT", flat 1)
    ∷ ("ASSET", flat 5)
    ∷ ("STOCK", flat 5)
    ∷ ("STOCK_ALL", flat 1)
    ∷ ("STOCK_TRADING_TREND", flat 10)
    ∷ ("MARKET_INFO", flat 3)
    ∷ ("MARKET_DATA", flat 15)
    ∷ ("MARKET_DATA_CHART", flat 20)
    ∷ ("RANKING", flat 5)
    ∷ ("MARKET_INDICATOR_PRICE", flat 10)
    ∷ ("MARKET_INDICATOR", flat 10)
    ∷ ("MARKET_INDICATOR_CHART", flat 5)
    ∷ ("ORDER", record { tps = nat 10; peak_tps = some (nat 10); peak_window = some open_window })
    ∷ ("ORDER_HISTORY", flat 5)
    ∷ (
      "ORDER_INFO",
      record { tps = nat 6; peak_tps = some (nat 3); peak_window = some open_window },
    )
    ∷ ("CONDITIONAL_ORDER", flat 5)
    ∷ ("CONDITIONAL_ORDER_HISTORY", flat 10)
    ∷ []

abbrev pub safety_factor : Decimal
safety_factor = frac 85 99

pub record Bucket : Type 0 where
  pub group : Group
  pub tokens : Decimal
  pub updated : Decimal
  pub server_limit : Option Decimal

-- `GROUPS.get(group_name) or Group(group_name, 1)`, full at first.
unfoldable pub new_bucket : String → Decimal → Bucket
new_bucket name now =
    let group = get_or name (flat 1) groups in
    record { group = group; tokens = group.tps; updated = now; server_limit = none }

-- `_bucket`: the bucket, and the registry that has it.
unfoldable pub bucket_of : String → Decimal → Dict Bucket → Bucket × Dict Bucket
bucket_of name now buckets = elim (lookup name buckets) [
  | some b ↦ (b, buckets)
  | none ↦ (new_bucket name now, insert name (new_bucket name now) buckets)
]

abbrev pub with_hint : Option Decimal → Decimal → Decimal
with_hint none documented = documented
with_hint (some hint) documented = if is_zero hint then documented else dmin documented hint

-- `_limit`
unfoldable pub limit_of : Bucket → ℕ → Decimal
limit_of b wall = with_hint b.server_limit (limit_at b.group wall)

-- `_rate`
unfoldable pub rate : Decimal → Bucket → ℕ → Decimal
rate safety b wall = dmax (limit_of b wall ⊗ safety) (frac 5 99)

-- `_capacity`
unfoldable pub capacity : Bucket → ℕ → Decimal
capacity b wall = dmax (limit_of b wall) (nat 1)

-- The refill at the start of a pass.
unfoldable pub refill : Decimal → Decimal → ℕ → Decimal → Bucket → Bucket
refill safety wanted wall now b =
    let elapsed = dmax (now ⊖ b.updated) (nat 0) in
    record b {
      updated = now;
      tokens = dmin (dmax (capacity b wall) wanted) (b.tokens ⊕ elapsed ⊗ rate safety b wall);
    }

-- A pass takes the tokens, or says how long to sleep.
pub data Pass : Type 0 where
  granted : Bucket → Pass
  sleep : Decimal → Bucket → Pass

unfoldable pub take_tokens : Decimal → Decimal → Bucket → Pass
take_tokens r wanted b =
    if le wanted b.tokens
    then granted (record b { tokens = b.tokens ⊖ wanted })
    else sleep (dmax ((wanted ⊖ b.tokens) ⊘ r) (frac 5 999)) b

unfoldable pub pass : Decimal → Decimal → ℕ → Decimal → Bucket → Pass
pass safety wanted wall now b =
    take_tokens (rate safety b wall) wanted (refill safety wanted wall now b)

-- `acquire`, on fuel, with the readings of both clocks for each pass: the seconds waited, and the
-- bucket.
unfoldable pub acquire :
    Decimal
    → Decimal
    → (ℕ → ℕ)
    → (ℕ → Decimal)
    → ℕ
    → ℕ
    → Bucket
    → Decimal
    → Option (Decimal × Bucket)
acquire safety wanted wall clock zero i b total = none
acquire safety wanted wall clock (suc fuel) i b total =
    elim (pass safety wanted (wall i) (clock i) b) [
      | granted b' ↦ some (total, b')
      | sleep d b' ↦ acquire safety wanted wall clock fuel (suc i) b' (total ⊕ d)
    ]

-- `observe_headers`, with the header parsed: `none` is missing, or no number.
unfoldable pub observe_headers : Decimal → Option Decimal → Bucket → Bucket
observe_headers safety none b = b
observe_headers safety (some limit) b =
    if le limit (nat 0)
    then b
    else record b { server_limit = some limit; tokens = dmin b.tokens (limit ⊗ safety) }

unfoldable pub penalize : Decimal → Option Decimal → Bucket → Bucket
penalize now none b = record b { tokens = nat 0 }
penalize now (some retry_after) b =
    if lt (nat 0) retry_after
    then record b { tokens = nat 0; updated = now ⊕ retry_after }
    else record b { tokens = nat 0 }
