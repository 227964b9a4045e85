-- ===== src/Notify/Commands.antt =====
-- src/tqt/notify/telegram.py: `poll_once` and `run_command_loop`. The application behind the
-- handlers is a state of any type; the answers of the service are parameters.
use toss_api_quant_trading.Universe.{codes}
use toss_api_quant_trading.Notify.Text.{
  Text, same, words, strip_slashes, before_at, lower_text, occurs,
}
use toss_api_quant_trading.Notify.Chunks.{info}
use toss_api_quant_trading.Notify.Group.{Post, Service}
use toss_api_quant_trading.Notify.Telegram.{telegram_send, telegram_send_pre}
use toss_api_quant_trading.Prelude.{
  ℕ, zero, suc, ◌*◌, Bool, Option, some, none, List, [], ◌∷◌, ◌++◌, if◌then◌else◌, ◌+◌, min,
}

-- An update: its number, the chat that it comes from and its text, both empty where it has none.
pub record Update : Type 0 where
  pub update_id : ℕ
  pub chat : Text
  pub text : Text

-- A handler answers with a text, or raises an exception with one.
pub data HandlerReply : Type 0 where
  replied failed : Text → HandlerReply

-- A handler takes the number of the update, by which the outside world's answers are chosen, its
-- arguments and the application.
abbrev pub Handler : Type 0 → Type 0
Handler S = ℕ → List Text → S → S × HandlerReply

abbrev pub Handlers : Type 0 → Type 0
Handlers S = List (Text × Handler S)

abbrev pub find_handler : {S : Type 0} → Text → Handlers S → Option (Handler S)
find_handler cmd [] = none
find_handler cmd ((name, h) ∷ rest) = if same cmd name then some h else find_handler cmd rest

-- `parts[0].lstrip("/").split("@")[0].lower()`
unfoldable pub command_of : Text → Text
command_of part = lower_text (before_at (strip_slashes part))

-- What became of an update: nothing to do, a command that counts, or an exception of the network.
pub data Handled : Type 0 where
  skipped counted interrupted : Handled

-- The token's service, the chat that may command, and the line that lists the commands.
pub record Bot : Type 0 where
  pub service : Service
  pub chat_id : Text
  pub listing : Text → Text

abbrev pub reply_text : HandlerReply → Text
reply_text (replied t) = t
reply_text (failed t) = codes "명령 처리 중 오류: " ++ t

abbrev pub raised_or : Handled → Option Bool → Handled
raised_or h none = interrupted
raised_or h (some ok) = h

-- Sending the reply: a block where it has several lines.
unfoldable pub send_reply : Service → Text → Text → List Post → List Post × Handled
send_reply service cmd [] posts = (posts, counted)
send_reply service cmd (c ∷ t) posts =
    let (posts', sent) =
      if occurs 10 (c ∷ t)
      then telegram_send_pre service info (47 ∷ cmd) (c ∷ t) posts
      else telegram_send service info (c ∷ t) posts in
    (posts', raised_or counted sent)

-- The channel and the application while updates are handled.
pub record PollState (S : Type 0) : Type 0 where
  pub offset : Option ℕ
  pub posts : List Post
  pub app : S

module _ {S : Type 0} (bot : Bot) (handlers : Handlers S) where
  -- A command of the right chat.
  abbrev pub run_handler :
      Text → Option (Handler S) → ℕ → List Text → List Post → S → (List Post × S) × Handled
  run_handler cmd none id args posts app =
      let (posts', sent) = telegram_send bot.service info (bot.listing cmd) posts in
      ((posts', app), raised_or skipped sent)
  run_handler cmd (some handler) id args posts app =
      let (app', reply) = handler id args app in
      let (posts', h) = send_reply bot.service cmd (reply_text reply) posts in ((posts', app'), h)

  abbrev pub dispatch : List Text → ℕ → List Post → S → (List Post × S) × Handled
  dispatch [] id posts app = ((posts, app), skipped)
  dispatch (part ∷ args) id posts app =
      run_handler (command_of part) (find_handler (command_of part) handlers) id args posts app

  -- One round of the loop over the updates, without the offset.
  unfoldable pub answer_update : Update → List Post → S → (List Post × S) × Handled
  answer_update u posts app =
      if same u.chat bot.chat_id
      then dispatch (words u.text) u.update_id posts app
      else ((posts, app), skipped)

  unfoldable pub handle_update : Update → PollState S → PollState S × Handled
  handle_update u st =
      let ((posts', app'), h) = answer_update u st.posts st.app in
      (record { offset = some (u.update_id + 1); posts = posts'; app = app' }, h)

  -- The rest of the updates, after one of them: an exception leaves them for the next poll.
  abbrev pub go_on :
      (ℕ → PollState S → PollState S × Option ℕ)
      → ℕ
      → PollState S × Handled
      → PollState S × Option ℕ
  go_on rest n (st, skipped) = rest n st
  go_on rest n (st, counted) = rest (suc n) st
  go_on rest n (st, interrupted) = (st, none)

  -- The loop over the updates, with the number of commands that were handled; none where an
  -- exception ends it.
  unfoldable pub handle_updates : List Update → ℕ → PollState S → PollState S × Option ℕ
  handle_updates [] n st = (st, some n)
  handle_updates (u ∷ us) n st = go_on (handle_updates us) n (handle_update u st)

  -- `poll_once`, for what `getUpdates` answers at the offset; none for a failure.
  unfoldable pub poll_once :
      (Option ℕ → Option (List Update)) → PollState S → PollState S × Option ℕ
  poll_once get_updates st = elim (get_updates st.offset) [
    | none ↦ (st, none)
    | some us ↦ handle_updates us 0 st
  ]

-- The seconds that the loop waits after the given number of failures in a row.
abbrev pub powers : ℕ → ℕ
powers zero = 1
powers (suc k) = 2 * powers k

unfoldable pub retry_delay : ℕ → ℕ
retry_delay failures = min (powers (min failures 6)) 60

abbrev pub next_failures : ℕ → Option ℕ → ℕ
next_failures failures none = suc failures
next_failures failures (some n) = 0

abbrev pub next_waits : ℕ → Option ℕ → List ℕ → List ℕ
next_waits failures none waits = retry_delay (suc failures) ∷ waits
next_waits failures (some n) waits = waits

-- `run_command_loop` until it is stopped: one round for each answer, with the waits, the last first.
unfoldable pub command_loop :
    {S : Type 0}
    → Bot
    → Handlers S
    → List (Option ℕ → Option (List Update))
    → ℕ
    → List ℕ
    → PollState S
    → PollState S × List ℕ
command_loop bot handlers [] failures waits st = (st, waits)
command_loop bot handlers (get_updates ∷ later) failures waits st =
    let (st', result) = poll_once bot handlers get_updates st in
    command_loop bot handlers later (next_failures failures result)
      (next_waits failures result waits) st'
