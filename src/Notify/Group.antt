-- ===== src/Notify/Group.antt =====
-- src/tqt/notify/base.py: a channel, `send_safe`, and the group of channels. What a service has been
-- sent is a list of posts, the newest last, and its answer is a parameter.
use toss_api_quant_trading.Notify.Text.{Text}
use toss_api_quant_trading.Notify.Chunks.{Level}
use toss_api_quant_trading.Prelude.{
  ℕ, Bool, Option, some, none, List, [], ◌∷◌, true, false, if◌then◌else◌, String, not, ◌&&◌, str_eq,
}

-- A message that was posted, and the HTTP status of the answer; none for a network error.
pub record Post : Type 0 where
  pub content : Text
  pub status : Option ℕ

-- What the service answers to a text after the posts so far.
abbrev pub Service : Type 0
Service = List Post → Text → Option ℕ

-- A channel: how it sends, and what it has posted. The outcome is none where `send` raises.
pub record Channel : Type 0 where
  pub name : String
  pub send : Level → Text → List Post → List Post × Option Bool
  pub posts : List Post

-- The value of `send_safe`: an exception is a failure.
abbrev pub or_failed : Option Bool → Bool
or_failed none = false
or_failed (some ok) = ok

-- `send_safe`
unfoldable pub send_safe : Level → Text → Channel → Channel × Bool
send_safe level text c =
    let (posts, sent) = c.send level text c.posts in (record c { posts = posts }, or_failed sent)

-- `any(n.send_safe(text, level=level) for n in self.notifiers)`, which stops at the first success.
unfoldable pub send_any : Level → Text → List Channel → List Channel × Bool
send_any level text [] = ([], false)
send_any level text (c ∷ cs) =
    let (c', ok) = send_safe level text c in
    let (cs', any_ok) = send_any level text cs in if ok then (c' ∷ cs, true) else (c' ∷ cs', any_ok)

-- `NotifierGroup.send`: a group without channels only logs.
unfoldable pub group_send : Level → Text → List Channel → List Channel × Bool
group_send level text [] = ([], true)
group_send level text (c ∷ cs) = send_any level text (c ∷ cs)

-- `NotifierGroup.channels`
unfoldable pub channel_names : List Channel → List String
channel_names [] = []
channel_names (c ∷ cs) = c.name ∷ channel_names cs

-- What `build_notifier` reads of the settings, and its group: Telegram, if it has a token and a
-- chat, then Discord, if it has a webhook.
pub record NotifySettings : Type 0 where
  pub telegram_bot_token : String
  pub telegram_chat_id : String
  pub discord_webhook_url : String

abbrev pub when : Bool → Channel → List Channel → List Channel
when true c cs = c ∷ cs
when false c cs = cs

abbrev pub has_text : String → Bool
has_text s = not (str_eq s "")

unfoldable pub build_notifier :
    (String → String → Channel) → (String → Channel) → NotifySettings → List Channel
build_notifier telegram discord s =
    when (has_text s.telegram_bot_token && has_text s.telegram_chat_id)
      (telegram s.telegram_bot_token s.telegram_chat_id)
      (when (has_text s.discord_webhook_url) (discord s.discord_webhook_url) [])
