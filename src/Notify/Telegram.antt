-- ===== src/Notify/Telegram.antt =====
-- src/tqt/notify/telegram.py: the messages of the channel.
use toss_api_quant_trading.Universe.{codes}
use toss_api_quant_trading.Notify.Text.{Text, html_escape}
use toss_api_quant_trading.Notify.Chunks.{Level, chunks, with_emoji, emoji}
use toss_api_quant_trading.Notify.Group.{Post, Service, Channel}
use toss_api_quant_trading.Prelude.{
  ℕ, Bool, Option, some, none, List, [], ◌∷◌, ◌++◌, true, false, if◌then◌else◌, ◌==◌, take,
}

abbrev pub max_message : ℕ
max_message = 4000

-- One post: what the service has been sent after it, and its answer.
abbrev pub post_text : Service → Text → List Post → List Post × Option ℕ
post_text service text posts =
    let status = service posts text in
    (posts ++ record { content = text; status = status } ∷ [], status)

-- How the loop over the chunks goes on after an answer.
abbrev pub after_post :
    (List Post → List Post × Option Bool) → List Post × Option ℕ → List Post × Option Bool
after_post go_on (posts, none) = (posts, none)
after_post go_on (posts, some status) = if status == 200 then go_on posts else (posts, some false)

unfoldable pub post_chunks : Service → List Text → List Post → List Post × Option Bool
post_chunks service [] posts = (posts, some true)
post_chunks service (c ∷ cs) posts = after_post (post_chunks service cs) (post_text service c posts)

-- `TelegramNotifier.send`
unfoldable pub telegram_send : Service → Level → Text → List Post → List Post × Option Bool
telegram_send service level text =
    post_chunks service (chunks (with_emoji level (html_escape text)) max_message)

abbrev pub is_accepted : Option ℕ → Option Bool
is_accepted none = none
is_accepted (some status) = some (status == 200)

-- The text of `send_pre`, before it is cut.
abbrev pub pre_text : Level → Text → Text → Text
pre_text level title block =
    emoji level
    ++ (codes " <b>"
        ++ (html_escape title ++ (codes "</b>\n<pre>" ++ (html_escape block ++ codes "</pre>"))))

-- `TelegramNotifier.send_pre`
unfoldable pub telegram_send_pre :
    Service → Level → Text → Text → List Post → List Post × Option Bool
telegram_send_pre service level title block posts =
    let (posts', status) =
      post_text service (take max_message (pre_text level title block)) posts in
    (posts', is_accepted status)

abbrev pub telegram_channel : Service → Channel
telegram_channel service = record { name = "telegram"; send = telegram_send service; posts = [] }
