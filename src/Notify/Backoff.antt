-- ===== src/Notify/Backoff.antt =====
-- How the command loop waits.
use toss_api_quant_trading.Notify.Commands.{
  Update, Bot, Handlers, PollState, poll_once, retry_delay, next_failures, next_waits, command_loop,
}
use toss_api_quant_trading.Prelude.{
  ℕ, zero, suc, Option, some, none, List, [], ◌∷◌, ◌≡◌, ◌≤◌, ◌+◌, All, length, arith, min,
}

-- The rounds of the loop that fail.
abbrev pub is_failure : Option ℕ → ℕ
is_failure none = 1
is_failure (some n) = 0

unfoldable pub failed_rounds :
    {S : Type 0} → Bot → Handlers S → List (Option ℕ → Option (List Update)) → PollState S → ℕ
failed_rounds bot handlers [] st = 0
failed_rounds bot handlers (get_updates ∷ later) st =
    let (st', result) = poll_once bot handlers get_updates st in
    is_failure result + failed_rounds bot handlers later st'

abbrev pub IsWait : ℕ → Type 0
IsWait w = (2 ≤ w) × (w ≤ 60)

retry_delay-IsWait : (k : ℕ) → IsWait (retry_delay (suc k))
unfolding retry_delay
retry_delay-IsWait zero = (omega arith, omega arith)
retry_delay-IsWait (suc zero) = (omega arith, omega arith)
retry_delay-IsWait (suc (suc zero)) = (omega arith, omega arith)
retry_delay-IsWait (suc (suc (suc zero))) = (omega arith, omega arith)
retry_delay-IsWait (suc (suc (suc (suc zero)))) = (omega arith, omega arith)
retry_delay-IsWait (suc (suc (suc (suc (suc k))))) =
    let e : min (suc (suc (suc (suc (suc (suc k)))))) 6 ≡ 6 = omega arith in
    rw e (omega arith, omega arith)

module _ {S : Type 0} (bot : Bot) (handlers : Handlers S) where
  next_waits-IsWait :
      (failures : ℕ) (result : Option ℕ) (waits : List ℕ)
      → All IsWait waits
      → All IsWait (next_waits failures result waits)
  next_waits-IsWait failures none waits h = (retry_delay-IsWait failures, h)
  next_waits-IsWait failures (some n) waits h = h

  length-next_waits :
      (failures : ℕ) (result : Option ℕ) (waits : List ℕ)
      → length (next_waits failures result waits) ≡ length waits + is_failure result
  length-next_waits failures none waits = omega arith
  length-next_waits failures (some n) waits = omega arith

  loop_waits :
      (rounds : List (Option ℕ → Option (List Update))) (failures : ℕ) (waits : List ℕ)
      (st : PollState S)
      → All IsWait waits
      → All IsWait (command_loop bot handlers rounds failures waits st).1
        × (length (command_loop bot handlers rounds failures waits st).1
            ≡ length waits + failed_rounds bot handlers rounds st)
  unfolding command_loop failed_rounds
  loop_waits [] failures waits st h = (h, omega arith)
  loop_waits (get_updates ∷ later) failures waits st h =
      let (st', result) = poll_once bot handlers get_updates st in
      let (bounds, count) =
        loop_waits later (next_failures failures result) (next_waits failures result waits) st'
          (next_waits-IsWait failures result waits h) in
      (bounds, omega (arith, count, length-next_waits failures result waits))

  -- The command loop waits once for each round that fails, for at least two seconds and at most a
  -- minute, and in no other round: it neither spins while the token is revoked nor falls asleep.
  pub command_loop-waits :
      (rounds : List (Option ℕ → Option (List Update))) (st : PollState S)
      → All IsWait (command_loop bot handlers rounds 0 [] st).1
        × (length (command_loop bot handlers rounds 0 [] st).1
            ≡ failed_rounds bot handlers rounds st)
  command_loop-waits rounds st =
      let (bounds, count) = loop_waits rounds 0 [] st tt in (bounds, omega (arith, count))
