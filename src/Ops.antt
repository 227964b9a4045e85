-- ===== src/Ops.antt =====
-- src/tqt/ops.py: the watch on the public address.
pub mod Clock
pub mod Hours
pub mod Address
mod Tests
use toss_api_quant_trading.Universe.{codes}
use toss_api_quant_trading.Store.{Store, log_event, ip_changed}
use toss_api_quant_trading.Prelude.{
  Option, Bool, String, List, ℕ, ◌&&◌, some, none, not, false, length, str_eq, if◌then◌else◌, true,
  ◌∷◌, [], leb, ◌==◌,
}

-- What one of the services answers: nothing for a failure of the network, or a status and the
-- stripped text.
abbrev pub Answer : Type 0
Answer = Option (ℕ × String)

abbrev pub code_count : List ℕ → ℕ
code_count cs = length cs

abbrev pub is_address : String → Bool
is_address text = not (str_eq text "") && leb (code_count (codes text)) 45

abbrev pub address_of : Answer → Option String
address_of none = none
address_of (some (status, text)) = if status == 200 && is_address text then some text else none

abbrev pub first_of : Option String → Option String → Option String
first_of none later = later
first_of (some ip) later = some ip

-- `public_ip`, on the answers of the services in their order.
unfoldable pub public_ip : List Answer → Option String
public_ip [] = none
public_ip (a ∷ rest) = first_of (address_of a) (public_ip rest)

pub record IpStatus : Type 0 where
  pub current : Option String
  pub previous : Option String
  pub changed : Bool

-- A text that Python takes for true.
abbrev pub given : Option String → Bool
given none = false
given (some text) = not (str_eq text "")

abbrev pub same_text : Option String → Option String → Bool
same_text none none = true
same_text (some a) (some b) = str_eq a b
same_text _ _ = false

abbrev pub has_changed : Option String → Option String → Bool
has_changed current previous = given current && given previous && not (same_text current previous)

-- The state `last_public_ip` and the ledger.
abbrev pub note_change : Bool → Store → Store
note_change true s = log_event ip_changed s
note_change false s = s

-- `check_ip`, for the address found and the one that was kept: the status, the address that is kept
-- now, and the store.
unfoldable pub check_ip : Option String → Option String → Store → IpStatus × Option String × Store
check_ip current previous s =
    let changed = has_changed current previous in
    (
      record { current = current; previous = previous; changed = changed },
      if given current then current else previous,
      if given current then note_change changed s else s,
    )
