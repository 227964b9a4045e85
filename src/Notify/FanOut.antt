-- ===== src/Notify/FanOut.antt =====
-- Which channels of a group get a message.
use toss_api_quant_trading.Notify.Text.{Text}
use toss_api_quant_trading.Notify.Chunks.{Level}
use toss_api_quant_trading.Notify.Group.{Channel, send_safe, send_any, group_send}
use toss_api_quant_trading.Prelude.{Bool, List, [], ◌∷◌, ◌≡◌, true, false, inl, inr, Bool-cases}

-- What the group's `send` has done to its channels. A success: some channel took the message, those
-- before it tried and failed, and those behind it did nothing. A failure: every channel tried and
-- failed.
pub data SendOutcome (level : Level) (text : Text)
    : List Channel → List Channel × Bool → Type 0 where
  nobody : SendOutcome level text [] ([], false)
  accepted :
      (c : Channel) (cs : List Channel)
      → (send_safe level text c).1 ≡ true
      → SendOutcome level text (c ∷ cs) ((send_safe level text c).0 ∷ cs, true)
  passed :
      (c : Channel) (cs ds : List Channel) (ok : Bool)
      → (send_safe level text c).1 ≡ false
      → SendOutcome level text cs (ds, ok)
      → SendOutcome level text (c ∷ cs) ((send_safe level text c).0 ∷ ds, ok)

send_any-SendOutcome :
    (level : Level) (text : Text) (cs : List Channel)
    → SendOutcome level text cs (send_any level text cs)
unfolding send_any
send_any-SendOutcome level text [] = nobody
send_any-SendOutcome level text (c ∷ cs) = elim (Bool-cases (send_safe level text c).1) [
  | inl e ↦ rw e (accepted c cs e)
  | inr e ↦ rw e (passed c cs _ _ e (send_any-SendOutcome level text cs))
]

-- A group never raises: its `send` either reports success, and then the first channel that succeeds
-- is the last one to get the message and all later ones are left as they were, or reports failure,
-- and then every channel has tried and failed.
pub group_send-SendOutcome :
    (level : Level) (text : Text) (c : Channel) (cs : List Channel)
    → SendOutcome level text (c ∷ cs) (group_send level text (c ∷ cs))
unfolding group_send
group_send-SendOutcome level text c cs = send_any-SendOutcome level text (c ∷ cs)
