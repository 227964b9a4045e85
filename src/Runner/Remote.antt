-- ===== src/Runner/Remote.antt =====
-- A halted bot under remote commands.
use toss_api_quant_trading.Universe.{codes}
use toss_api_quant_trading.Store.{Store}
use toss_api_quant_trading.Prelude.{
  ℕ, suc, String, Bool, List, [], ◌∷◌, ◌≡◌, ◌≢◌, ◌⊎◌, inl, inr, true, false, refl, All, Bool-cases,
  ◌∙◌, ◌&&◌,
}
use toss_api_quant_trading.Notify.Text.{Text, same, words}
use toss_api_quant_trading.Notify.Group.{Post}
use toss_api_quant_trading.Notify.Commands.{
  Update, Bot, Handler, Handlers, PollState, Handled, skipped, counted, interrupted, answer_update,
  handle_update, handle_updates, go_on, find_handler, command_of, dispatch, run_handler,
}
use toss_api_quant_trading.Runner.{BrokerOps, Cadence}
use toss_api_quant_trading.Runner.Events.{RunnerState, RunnerEvent, resume_command}
use toss_api_quant_trading.Runner.Halted.{OnlyLooks, Stays, on_event-Stays}
use toss_api_quant_trading.Runner.Commands.{
  World, command_handlers, entry, acts, reads, halts, takes_snapshot, checks_ip, rebalances,
}

abbrev pub resume_text : Text
resume_text = codes "resume"

abbrev pub first_is_resume : List Text → Bool
first_is_resume [] = false
first_is_resume (part ∷ args) = same (command_of part) resume_text

-- The configured chat asks for a resume.
abbrev pub asks_resume : Bot → Update → Bool
asks_resume bot u = same u.chat bot.chat_id && first_is_resume (words u.text)

-- A handler that leaves a halted bot halted, with its orders.
abbrev KeepsHalt : Handler RunnerState → Type 0
KeepsHalt h =
    (id : ℕ) (args : List Text) (st : RunnerState)
    → st.ledger.halted ≡ true
    → Stays st.ledger (h id args st).0.ledger

abbrev IsTame : Text × Handler RunnerState → Type 0
IsTame (name, h) = (name ≡ resume_text) ⊎ KeepsHalt h

Stays-refl : (s : Store) → s.halted ≡ true → Stays s s
Stays-refl s h = record { orders = refl; halted = h }

Stays-trans : (s t u : Store) → Stays s t → Stays t u → Stays s u
Stays-trans s t u a b = record { orders = b.orders ∙ a.orders; halted = b.halted }

abbrev pub ledger_after {ℓ} : {A : Type ℓ} → PollState RunnerState × A → Store
ledger_after (st, r) = st.app.ledger

infixr 20 ◌⊳◌
◌⊳◌ : {A B : Type 0} → A → B → A × B
t ⊳ ts = (t, ts)

-- What a handler found for another command than a resume does.
run_handler-Stays :
    (bot : Bot) (cmd : Text) (hs : Handlers RunnerState) (id : ℕ) (args : List Text)
    (posts : List Post) (st : RunnerState)
    → All IsTame hs
    → same cmd resume_text ≡ false
    → st.ledger.halted ≡ true
    → (whole : Handlers RunnerState)
    → Stays st.ledger (run_handler bot whole cmd (find_handler cmd hs) id args posts st).0.1.ledger
run_handler-Stays bot cmd [] id args posts st t n h whole = Stays-refl st.ledger h
run_handler-Stays bot cmd ((name, f) ∷ hs) id args posts st (t, ts) n h whole =
    elim (Bool-cases (same cmd name)) [
      | inl e ↦ rw e (tame t e)
      | inr e ↦ rw e (run_handler-Stays bot cmd hs id args posts st ts n h whole)
    ]
  where
    tame :
        (name ≡ resume_text) ⊎ KeepsHalt f
        → same cmd name ≡ true
        → Stays st.ledger (f id args st).0.ledger
    tame (inl q) e = let bad : same cmd resume_text ≡ true = rw q at e in absurd (cc)
    tame (inr k) e = k id args st h

module _ (cadence : Cadence) (ops_at : ℕ → BrokerOps) (laws : (n : ℕ) → OnlyLooks (ops_at n))
    (world : ℕ → World) (words_of : Text → String) (bot : Bot) where
  acts-IsTame :
      (event : List Text → World → RunnerEvent) (name : String)
      → ((args : List Text) (w : World) → event args w ≢ resume_command)
      → IsTame (entry cadence ops_at world name (acts cadence ops_at world event))
  acts-IsTame event name n = inr λ id args st h.
      let w = world id in
      on_event-Stays cadence ops_at laws (event args w) w.now w.clock w.targets st (n args w) h

  looks :
      (name : String)
      → IsTame (entry cadence ops_at world name (acts cadence ops_at world takes_snapshot))
  looks name = acts-IsTame takes_snapshot name (λ args w q. cc)

  stops :
      (name : String)
      → IsTame (entry cadence ops_at world name (acts cadence ops_at world (halts words_of)))
  stops name = acts-IsTame (halts words_of) name (λ args w q. cc)

  only_reads :
      (name : String) → IsTame (entry cadence ops_at world name (reads cadence ops_at world))
  only_reads name = inr (λ id args st h. Stays-refl st.ledger h)

  handlers-IsTame : All IsTame (command_handlers cadence ops_at world words_of)
  unfolding command_handlers
  handlers-IsTame =
      looks "status"
      ⊳ looks "positions"
      ⊳ looks "pnl"
      ⊳ looks "report"
      ⊳ only_reads "orders"
      ⊳ only_reads "signals"
      ⊳ stops "halt"
      ⊳ stops "stop"
      ⊳ inl refl
      ⊳ acts-IsTame checks_ip "ip" (λ args w q. cc)
      ⊳ acts-IsTame rebalances "rebalance" (λ args w q. cc)
      ⊳ only_reads "plan"
      ⊳ only_reads "help"
      ⊳ only_reads "start"
      ⊳ tt

  abbrev pub remote : Handlers RunnerState
  remote = command_handlers cadence ops_at world words_of

  dispatch-Stays :
      (parts : List Text) (id : ℕ) (posts : List Post) (st : RunnerState)
      → first_is_resume parts ≡ false
      → st.ledger.halted ≡ true
      → Stays st.ledger (dispatch bot remote parts id posts st).0.1.ledger
  dispatch-Stays [] id posts st n h = Stays-refl st.ledger h
  dispatch-Stays (part ∷ args) id posts st n h =
      let hs = remote in
      run_handler-Stays bot (command_of part) hs id args posts st handlers-IsTame n h hs

  handle_update-Stays :
      (u : Update) (st : PollState RunnerState)
      → asks_resume bot u ≡ false
      → st.app.ledger.halted ≡ true
      → Stays st.app.ledger (ledger_after (handle_update bot remote u st))
  unfolding handle_update answer_update
  handle_update-Stays u st n h = elim (Bool-cases (same u.chat bot.chat_id)) [
    | inl e ↦ rw e (dispatch-Stays (words u.text) u.update_id st.posts st.app (rw e at n) h)
    | inr e ↦ rw e (Stays-refl st.app.ledger h)
  ]

  go_on-Stays :
      (s : Store) (us : List Update)
      → ((k : ℕ) (t : PollState RunnerState)
          → t.app.ledger.halted ≡ true
          → Stays t.app.ledger (ledger_after (handle_updates bot remote us k t)))
      → (n : ℕ) (x : PollState RunnerState × Handled) → Stays s x.0.app.ledger
      → Stays s (ledger_after (go_on bot remote (handle_updates bot remote us) n x))
  go_on-Stays s us ih n (t, skipped) h = Stays-trans s _ _ h (ih n t h.halted)
  go_on-Stays s us ih n (t, counted) h = Stays-trans s _ _ h (ih (suc n) t h.halted)
  go_on-Stays s us ih n (t, interrupted) h = h

  -- While the bot is halted, a poll in which the configured chat does not ask for a resume places no
  -- order and leaves the switch on: whatever that chat commands otherwise, a forced rebalance
  -- included, and whatever other chats write, a resume included. The broker's snapshots leave orders
  -- and switch.
  pub handle_updates-halted :
      (us : List Update) (n : ℕ) (st : PollState RunnerState)
      → All (λ u. asks_resume bot u ≡ false) us
      → st.app.ledger.halted ≡ true
      → Stays st.app.ledger (ledger_after (handle_updates bot remote us n st))
  unfolding handle_updates
  handle_updates-halted [] n st a h = Stays-refl st.app.ledger h
  handle_updates-halted (u ∷ us) n st (a, as') h =
      unfold handle_updates in
      go_on-Stays st.app.ledger us (λ k t g. handle_updates-halted us k t as' g) n
        (handle_update bot remote u st) (handle_update-Stays u st a h)
