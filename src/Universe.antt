-- ===== src/Universe.antt =====
-- src/tqt/universe.py: assets, sleeves, and the market of a symbol. Sides are the two values that
-- the order code uses.
pub mod Sleeves
use Prim.Native.Char.{code}
use toss_api_quant_trading.Prelude.{
  ltb, ℕ, Bool, true, false, ◌&&◌, String, List, [], ◌∷◌, ◌++◌, Option, none, some, leb, str_eq,
  if◌then◌else◌, ◌≡◌, refl, ◌==◌,
}

pub data Country : Type 0 where
  kr us : Country

pub data Side : Type 0 where
  buy sell : Side

pub data Currency : Type 0 where
  krw usd : Currency

-- The code points of a text.
abbrev pub codes : String → List ℕ
codes String.[] = []
codes (String.◌∷◌ c s) = code c ∷ codes s

-- `a < b` of texts, by their code points.
abbrev pub codes_lt : List ℕ → List ℕ → Bool
codes_lt xs [] = false
codes_lt [] (y ∷ ys) = true
codes_lt (x ∷ xs) (y ∷ ys) = if x == y then codes_lt xs ys else ltb x y

-- `str.isdigit` on ASCII text: not empty, and all digits.
abbrev all_digits : List ℕ → Bool
all_digits [] = true
all_digits (c ∷ cs) = leb 48 c && leb c 57 && all_digits cs

abbrev six_long : List ℕ → Bool
six_long (_ ∷ _ ∷ _ ∷ _ ∷ _ ∷ _ ∷ []) = true
six_long _ = false

unfoldable pub country_of : String → Country
country_of symbol = let cs = codes symbol in if all_digits cs && six_long cs then kr else us

abbrev pub currency_of : Country → Currency
currency_of kr = krw
currency_of us = usd

pub data Role : Type 0 where
  equity_role bond gold commodity cash_role : Role

pub record Asset : Type 0 where
  pub symbol : String
  pub country : Country
  pub currency : Currency
  pub role : Role
  pub is_etf : Bool

pub record Sleeve : Type 0 where
  pub key : String
  pub risk : List Asset
  pub safe : List Asset
  pub country : Country

abbrev pub symbols_of : List Asset → List String
symbols_of [] = []
symbols_of (a ∷ as') = a.symbol ∷ symbols_of as'

unfoldable pub all_assets : Sleeve → List Asset
all_assets sl = sl.risk ++ sl.safe

unfoldable pub risk_symbols : Sleeve → List String
risk_symbols sl = symbols_of sl.risk

unfoldable pub safe_symbols : Sleeve → List String
safe_symbols sl = symbols_of sl.safe

find_asset : String → List Asset → Option Asset
find_asset symbol [] = none
find_asset symbol (a ∷ rest) = if str_eq a.symbol symbol then some a else find_asset symbol rest

-- `Sleeve.asset`
unfoldable pub asset : Sleeve → String → Option Asset
unfolding find_asset all_assets
asset sl symbol = find_asset symbol (all_assets sl)

test_samsung : country_of "005930" ≡ kr
unfolding country_of
test_samsung = refl

test_ticker : country_of "SPY" ≡ us
unfolding country_of
test_ticker = refl
