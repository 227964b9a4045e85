-- ===== src/Notify/Authorised.antt =====
-- Whose commands a poll runs.
use toss_api_quant_trading.Notify.Text.{same}
use toss_api_quant_trading.Notify.Group.{Post}
use toss_api_quant_trading.Notify.Commands.{
  Update, Bot, Handlers, PollState, Handled, skipped, counted, interrupted, answer_update,
  handle_update, handle_updates, go_on,
}
use toss_api_quant_trading.Prelude.{
  ℕ, suc, Option, some, List, [], ◌∷◌, ◌≡◌, false, if◌then◌else◌, inl, inr, Bool-cases, refl, ◌∙◌,
  ◌+◌,
}

-- The updates that come from the configured chat, in their order.
abbrev pub from_chat : Bot → List Update → List Update
from_chat bot [] = []
from_chat bot (u ∷ us) =
    let rest = from_chat bot us in if same u.chat bot.chat_id then u ∷ rest else rest

-- What is left of a poll when its offset is forgotten.
abbrev pub seen : {S : Type 0} → PollState S × Option ℕ → (List Post × S) × Option ℕ
seen (st, n) = ((st.posts, st.app), n)

module _ {S : Type 0} (bot : Bot) (handlers : Handlers S) where
  -- Two polls that differ in the offset see the same.
  handle_updates-offset :
      (us : List Update) (n : ℕ) (o o' : Option ℕ) (posts : List Post) (app : S)
      → seen (handle_updates bot handlers us n (record { offset = o; posts = posts; app = app }))
        ≡ seen (handle_updates bot handlers us n (record { offset = o'; posts = posts; app = app }))
  unfolding handle_updates handle_update
  handle_updates-offset [] n o o' posts app = refl
  handle_updates-offset (u ∷ us) n o o' posts app = refl

  seen-skip :
      (u : Update) (us : List Update) (n : ℕ) (st : PollState S)
      → same u.chat bot.chat_id ≡ false
      → seen (handle_updates bot handlers (u ∷ us) n st)
        ≡ seen (handle_updates bot handlers us n st)
  unfolding handle_updates handle_update answer_update
  seen-skip u us n st e =
      rw e (handle_updates-offset us n (some (u.update_id + 1)) st.offset st.posts st.app)

  go_on-seen :
      (us vs : List Update)
      → ((k : ℕ) (t : PollState S)
          → seen (handle_updates bot handlers us k t) ≡ seen (handle_updates bot handlers vs k t))
      → (n : ℕ) (x : PollState S × Handled)
      → seen (go_on bot handlers (handle_updates bot handlers us) n x)
        ≡ seen (go_on bot handlers (handle_updates bot handlers vs) n x)
  go_on-seen us vs ih n (t, skipped) = ih n t
  go_on-seen us vs ih n (t, counted) = ih (suc n) t
  go_on-seen us vs ih n (t, interrupted) = refl

  seen-keep :
      (u : Update) (us vs : List Update)
      → ((k : ℕ) (t : PollState S)
          → seen (handle_updates bot handlers us k t) ≡ seen (handle_updates bot handlers vs k t))
      → (n : ℕ) (st : PollState S)
      → seen (handle_updates bot handlers (u ∷ us) n st)
        ≡ seen (handle_updates bot handlers (u ∷ vs) n st)
  seen-keep u us vs ih n st =
      unfold handle_updates in go_on-seen us vs ih n (handle_update bot handlers u st)

  -- A poll does to the application and sends to the service exactly what it would do if only the
  -- configured chat had written, and counts or fails as it would then: other chats' updates run no
  -- handler and get no answer.
  pub handle_updates-from_chat :
      (us : List Update) (n : ℕ) (st : PollState S)
      → seen (handle_updates bot handlers us n st)
        ≡ seen (handle_updates bot handlers (from_chat bot us) n st)
  handle_updates-from_chat [] n st = refl
  handle_updates-from_chat (u ∷ us) n st = elim (Bool-cases (same u.chat bot.chat_id)) [
    | inl e ↦ rw e (seen-keep u us (from_chat bot us) (handle_updates-from_chat us) n st)
    | inr e ↦ rw e (seen-skip u us n st e ∙ handle_updates-from_chat us n st)
  ]
