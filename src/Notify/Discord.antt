-- ===== src/Notify/Discord.antt =====
-- src/tqt/notify/discord.py. Unlike Telegram's, its `send` goes on after a chunk that is refused.
use toss_api_quant_trading.Universe.{codes}
use toss_api_quant_trading.Notify.Text.{Text}
use toss_api_quant_trading.Notify.Chunks.{Level, chunks, with_emoji, emoji}
use toss_api_quant_trading.Notify.Group.{Post, Service, Channel}
use toss_api_quant_trading.Notify.Telegram.{post_text}
use toss_api_quant_trading.Prelude.{
  ℕ, Bool, Option, some, none, List, [], ◌∷◌, ◌++◌, true, ◌==◌, ◌||◌, ◌&&◌, take, ◌-◌,
}

abbrev pub max_content : ℕ
max_content = 1900

abbrev pub is_success : ℕ → Bool
is_success status = status == 200 || status == 204

abbrev pub after_chunk :
    (Bool → List Post → List Post × Option Bool)
    → Bool
    → List Post × Option ℕ
    → List Post × Option Bool
after_chunk go_on ok (posts, none) = (posts, none)
after_chunk go_on ok (posts, some status) = go_on (ok && is_success status) posts

unfoldable pub post_all : Service → List Text → Bool → List Post → List Post × Option Bool
post_all service [] ok posts = (posts, some ok)
post_all service (c ∷ cs) ok posts =
    after_chunk (post_all service cs) ok (post_text service c posts)

-- `DiscordNotifier.send`
unfoldable pub discord_send : Service → Level → Text → List Post → List Post × Option Bool
discord_send service level text = post_all service (chunks (with_emoji level text) max_content) true

abbrev pub is_sent : Option ℕ → Option Bool
is_sent none = none
is_sent (some status) = some (is_success status)

-- `DiscordNotifier.send_pre`, which cuts the block and not the whole text.
unfoldable pub discord_send_pre :
    Service → Level → Text → Text → List Post → List Post × Option Bool
discord_send_pre service level title block posts =
    let content =
      emoji level
      ++ (codes " **"
          ++ (title ++ (codes "**\n```\n" ++ (take (max_content - 100) block ++ codes "\n```")))) in
    let (posts', status) = post_text service content posts in (posts', is_sent status)

abbrev pub discord_channel : Service → Channel
discord_channel service = record { name = "discord"; send = discord_send service; posts = [] }
