-- ===== src/Toss/Queries.antt =====
-- src/tqt/toss/client.py: the calls that do more than one request, or more than pass an answer on.
pub mod Chunks
pub mod Resolved
use toss_api_quant_trading.Universe.{codes}
use toss_api_quant_trading.Toss.Models.{Order}
use toss_api_quant_trading.Decimal.{Decimal}
use toss_api_quant_trading.Toss.Client.{
  Ending, returned, raised, Effects, Header, resolved, unresolved,
}
use toss_api_quant_trading.Toss.Errors.{ErrorClass, TossError, plain, not_found}
use toss_api_quant_trading.Prelude.{
  take, String, ℕ, Option, List, ◌∷◌, Bool, if◌then◌else◌, length, suc, [], none, str_eq, ◌||◌,
  true, zero, leb, member, ◌++◌, ◌&&◌, some, false, ◌==◌,
}

abbrev pub drop {ℓ} : {A : Type ℓ} → ℕ → List A → List A
drop zero xs = xs
drop (suc n) [] = []
drop (suc n) (x ∷ xs) = drop n xs

-- `range(0, len(syms), size)`, on fuel: as much as there are symbols.
unfoldable pub chunks_of : ℕ → ℕ → List String → List (List String)
chunks_of fuel size [] = []
chunks_of zero size (x ∷ xs) = []
chunks_of (suc fuel) size (x ∷ xs) = take size (x ∷ xs) ∷ chunks_of fuel size (drop size (x ∷ xs))

abbrev pub max_symbols_per_price_call : ℕ
max_symbols_per_price_call = 200

abbrev pub Price : Type 0
Price = String × Decimal

abbrev pub add_prices : Ending (List Price) → Ending (List Price) → Ending (List Price)
add_prices (raised e) later = raised e
add_prices (returned ps) (raised e) = raised e
add_prices (returned ps) (returned qs) = returned (ps ++ qs)

unfoldable pub prices_of :
    (List String → Ending (List Price)) → List (List String) → Ending (List Price)
prices_of server [] = returned []
prices_of server (chunk ∷ rest) = add_prices (server chunk) (prices_of server rest)

-- `prices`: a request for each chunk; the first error ends the call.
unfoldable pub prices : (List String → Ending (List Price)) → List String → Ending (List Price)
prices server syms = prices_of server (chunks_of (length syms) max_symbols_per_price_call syms)

abbrev pub no_stock : TossError
no_stock = record {
  class = not_found;
  status = none;
  code = some "stock-not-found";
  retry_after = none;
}

abbrev pub first_price : Ending (List Price) → Ending Price
first_price (raised e) = raised e
first_price (returned []) = raised no_stock
first_price (returned (p ∷ ps)) = returned p

-- `price`
unfoldable pub price_for : (List String → Ending (List Price)) → String → Ending Price
price_for server symbol = first_price (prices server (symbol ∷ []))

abbrev pub blocking_warnings : List String
blocking_warnings =
    "LIQUIDATION_TRADING" ∷ "INVESTMENT_WARNING" ∷ "INVESTMENT_RISK" ∷ "OVERHEATED"
    ∷ "STOCK_WARRANTS" ∷ []

unfoldable pub blocking : List String → List String
blocking [] = []
blocking (w ∷ ws) =
    let later = blocking ws in if member w blocking_warnings then w ∷ later else later

abbrev pub is_not_found : ErrorClass → Bool
is_not_found not_found = true
is_not_found _ = false

-- `buy_block_reasons`, on the answer of the warnings endpoint.
unfoldable pub buy_block_reasons : Ending (List String) → Ending (List String)
buy_block_reasons (returned ws) = returned (blocking ws)
buy_block_reasons (raised e) =
    if is_not_found e.class then returned ("stock-not-found" ∷ []) else raised e

pub record Account : Type 0 where
  pub account_no : String
  pub account_seq : ℕ

-- The digits of an account number, as code points.
abbrev pub digits_of : List ℕ → List ℕ
digits_of [] = []
digits_of (c ∷ cs) = let later = digits_of cs in if leb 48 c && leb c 57 then c ∷ later else later

abbrev pub same_codes : List ℕ → List ℕ → Bool
same_codes [] [] = true
same_codes (x ∷ xs) (y ∷ ys) = x == y && same_codes xs ys
same_codes _ _ = false

-- `text.endswith(end)`
abbrev pub ends_with : List ℕ → List ℕ → Bool
ends_with [] end = same_codes [] end
ends_with (x ∷ xs) end = same_codes (x ∷ xs) end || ends_with xs end

abbrev pub is_wanted : List ℕ → Account → Bool
is_wanted wanted acc =
    let digits = digits_of (codes acc.account_no) in
    ends_with digits wanted || ends_with wanted digits

-- The first account that matches, or else the given one.
unfoldable pub matching : List ℕ → List Account → Account → Account
matching wanted [] fallback = fallback
matching wanted (a ∷ rest) fallback =
    let later = matching wanted rest fallback in if is_wanted wanted a then a else later

abbrev pub no_account : TossError
no_account = record { class = plain; status = none; code = none; retry_after = none }

-- `resolve_account_seq`, on the account list and the configured account; an empty text is none.
unfoldable pub resolve_account_seq : List Account → String → Ending ℕ
resolve_account_seq [] wanted = raised no_account
resolve_account_seq (a ∷ rest) wanted =
    if str_eq wanted ""
    then returned a.account_seq
    else returned (matching (codes wanted) (a ∷ rest) a).account_seq

abbrev pub header_by : Ending ℕ → Effects → Header
header_by (returned seq) nested = resolved nested
header_by (raised e) nested = unresolved e nested

-- `account_seq`, of a client that does not know it: what the call for the accounts has brought.
unfoldable pub account_header : String → Ending (List Account) → Effects → Header
account_header wanted (raised e) nested = unresolved e nested
account_header wanted (returned accounts) nested =
    header_by (resolve_account_seq accounts wanted) nested

pub record OrdersPage : Type 0 where
  pub orders : List Order
  pub next_cursor : Option String
  pub has_next : Bool

-- What paging yields: the orders, and the error that ends it early.
abbrev pub Yield : Type 0
Yield = List Order × Option TossError

abbrev pub next_page : OrdersPage → Option String
next_page page =
    if page.has_next
    then (elim page.next_cursor [
      | none ↦ none
      | some cursor ↦ if str_eq cursor "" then none else some cursor
    ])
    else none

abbrev pub with_orders : List Order → Yield → Yield
with_orders os (later, e) = (os ++ later, e)

-- `iter_orders`: at most the given number of pages.
unfoldable pub iter_orders : (Option String → Ending OrdersPage) → ℕ → Option String → Yield
iter_orders server zero cursor = ([], none)
iter_orders server (suc pages) cursor = elim (server cursor) [
  | raised e ↦ ([], some e)
  | returned page ↦ (elim (next_page page) [
    | none ↦ (page.orders, none)
    | some next ↦ with_orders page.orders (iter_orders server pages (some next))
  ])
]
