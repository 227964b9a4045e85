-- ===== src/Universe/Sleeves.antt =====
-- The sleeves of src/tqt/universe.py, without their titles and notes, and what is looked up in them.
use toss_api_quant_trading.Prelude.{
  String, Option, some, none, List, [], ◌∷◌, ◌++◌, true, false, if◌then◌else◌, str_eq, member,
}
use toss_api_quant_trading.Universe.{
  Asset, Sleeve, Role, kr, us, krw, usd, equity_role, bond, gold, cash_role, all_assets, symbols_of,
}

-- An asset of a market is quoted in the market's currency.
abbrev pub kr_etf : String → Role → Asset
kr_etf symbol role = record {
  symbol = symbol;
  country = kr;
  currency = krw;
  role = role;
  is_etf = true;
}

abbrev pub kr_stock : String → Asset
kr_stock symbol = record {
  symbol = symbol;
  country = kr;
  currency = krw;
  role = equity_role;
  is_etf = false;
}

abbrev pub us_etf : String → Role → Asset
us_etf symbol role = record {
  symbol = symbol;
  country = us;
  currency = usd;
  role = role;
  is_etf = true;
}

abbrev pub kr_global : Sleeve
kr_global = record {
  key = "kr-global-etf";
  risk =
      kr_etf "069500" equity_role
      ∷ kr_etf "229200" equity_role
      ∷ kr_etf "360750" equity_role
      ∷ kr_etf "133690" equity_role
      ∷ kr_etf "195930" equity_role
      ∷ kr_etf "192090" equity_role
      ∷ kr_etf "132030" gold
      ∷ kr_etf "305080" bond
      ∷ [];
  safe = kr_etf "114260" bond ∷ kr_etf "273130" bond ∷ [];
  country = kr;
}

abbrev pub us_global : Sleeve
us_global = record {
  key = "us-global-etf";
  risk =
      us_etf "SPY" equity_role
      ∷ us_etf "VEA" equity_role
      ∷ us_etf "VWO" equity_role
      ∷ us_etf "AGG" bond
      ∷ [];
  safe = us_etf "SHY" cash_role ∷ us_etf "IEF" bond ∷ us_etf "LQD" bond ∷ [];
  country = us;
}

abbrev pub us_sector : Sleeve
us_sector = record {
  key = "us-sector";
  risk =
      us_etf "XLK" equity_role
      ∷ us_etf "XLV" equity_role
      ∷ us_etf "XLF" equity_role
      ∷ us_etf "XLE" equity_role
      ∷ us_etf "XLU" equity_role
      ∷ us_etf "QQQ" equity_role
      ∷ us_etf "IWM" equity_role
      ∷ us_etf "VNQ" equity_role
      ∷ us_etf "GLD" gold
      ∷ us_etf "TLT" bond
      ∷ [];
  safe = us_etf "BIL" cash_role ∷ us_etf "SHY" cash_role ∷ [];
  country = us;
}

abbrev pub kr_large_cap : Sleeve
kr_large_cap = record {
  key = "kr-large-cap";
  risk =
      kr_stock "005930"
      ∷ kr_stock "000660"
      ∷ kr_stock "035420"
      ∷ kr_stock "005380"
      ∷ kr_stock "051910"
      ∷ [];
  safe = kr_etf "114260" bond ∷ [];
  country = kr;
}

-- `SLEEVES`, in its order.
abbrev pub sleeves : List Sleeve
sleeves = kr_global ∷ us_global ∷ us_sector ∷ kr_large_cap ∷ []

-- `get_sleeve`; none is its KeyError.
unfoldable pub get_sleeve : String → List Sleeve → Option Sleeve
get_sleeve key [] = none
get_sleeve key (sl ∷ rest) = if str_eq key sl.key then some sl else get_sleeve key rest

-- `seen.setdefault(sym, None)`, on the keys in their order.
abbrev pub add_symbols : List String → List String → List String
add_symbols [] seen = seen
add_symbols (x ∷ xs) seen = add_symbols xs (if member x seen then seen else seen ++ x ∷ [])

unfoldable pub symbols_from : List Sleeve → List String → List String
unfolding all_assets
symbols_from [] seen = seen
symbols_from (sl ∷ rest) seen = symbols_from rest (add_symbols (symbols_of (all_assets sl)) seen)

unfoldable pub all_symbols : List String
unfolding symbols_from
all_symbols = symbols_from sleeves []
