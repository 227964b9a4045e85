-- ===== src/Notify/Tests.antt =====
-- Messages and commands at small inputs.
use toss_api_quant_trading.Universe.{codes}
use toss_api_quant_trading.Prelude.{
  ℕ, zero, suc, some, none, List, [], ◌∷◌, ◌++◌, ◌≡◌, false, refl, arith, All, max, length,
}
use toss_api_quant_trading.Notify.Text.{
  Text, join, split_lines, html_escape, ends_line, strip_slashes, before_at, lower_text,
  escape_char,
}
use toss_api_quant_trading.Notify.Chunks.{info, chunks, pack_lines, with_emoji}
use toss_api_quant_trading.Notify.Pack.{Short, longest, chunks-join}
use toss_api_quant_trading.Notify.Group.{Service, Channel, group_send, send_safe, send_any}
use toss_api_quant_trading.Notify.Telegram.{telegram_channel, telegram_send, post_chunks}
use toss_api_quant_trading.Notify.Discord.{discord_channel}
use toss_api_quant_trading.Notify.FanOut.{SendOutcome, group_send-SendOutcome}
use toss_api_quant_trading.Notify.LongLine.{telegram_send-long_line}
use toss_api_quant_trading.Notify.Commands.{
  Update, Bot, Handlers, replied, PollState, handle_updates, command_of,
}
use toss_api_quant_trading.Notify.Authorised.{from_chat, seen, handle_updates-from_chat}

abbrev report : Text
report = codes "ab\ncde\nf"

-- The limit is between the first two lines and the first.
test_cut : chunks report 4 ≡ codes "ab\n" ∷ codes "cde\n" ∷ codes "f" ∷ []
unfolding chunks pack_lines split_lines ends_line
test_cut = refl

chunks-join_example :
    (join (chunks report 4) ≡ report)
    × All (Short (max 4 (longest (split_lines report)))) (chunks report 4)
chunks-join_example = chunks-join report 4

abbrev accepting : Service
accepting posts text = some 200

abbrev offline : Service
offline posts text = none

abbrev two_channels : Channel × List Channel
two_channels = (telegram_channel accepting, discord_channel accepting ∷ [])

group_send-SendOutcome_example :
    SendOutcome info
      (codes "hi")
      (two_channels.0 ∷ two_channels.1)
      (group_send info (codes "hi") (two_channels.0 ∷ two_channels.1))
group_send-SendOutcome_example =
    group_send-SendOutcome info (codes "hi") two_channels.0 two_channels.1

-- Discord gets nothing where Telegram has taken the message.
test_second_channel :
    (group_send info (codes "hi") (two_channels.0 ∷ two_channels.1)).0
    ≡ (send_safe info (codes "hi") two_channels.0).0 ∷ two_channels.1
unfolding group_send send_any send_safe telegram_send post_chunks chunks html_escape escape_char
test_second_channel = refl

-- A service that refuses an empty text.
abbrev refusing : Service
refusing posts [] = some 400
refusing posts (c ∷ t) = some 200

letters : ℕ → Text
letters zero = []
letters (suc n) = b'x' ∷ letters n

escape-letters : (n : ℕ) → html_escape (letters n) ≡ letters n
unfolding html_escape letters escape_char
escape-letters zero = refl
escape-letters (suc n) = rw (escape-letters n) refl

length-letters : (n : ℕ) → length (letters n) ≡ n
unfolding letters
length-letters zero = refl
length-letters (suc n) = omega (arith, length-letters n)

one_line : (n : ℕ) → split_lines (letters (suc n)) ≡ letters (suc n) ∷ []
unfolding split_lines letters ends_line
one_line zero = refl
one_line (suc n) = rw (one_line n) refl

abbrev first_line : ℕ → Text
first_line n = with_emoji info (letters (suc n))

first_line-split :
    (n : ℕ) → split_lines (with_emoji info (html_escape (letters (suc n)))) ≡ first_line n ∷ []
unfolding split_lines ends_line
first_line-split n = rw (escape-letters (suc n), one_line n) refl

telegram_send-long_line_example :
    telegram_send refusing info (letters 4001) []
    ≡ ([] ++ record { content = []; status = some 400 } ∷ [], some false)
telegram_send-long_line_example =
    telegram_send-long_line refusing info (letters 4001) (first_line 4000) [] [] (λ sent. refl)
      (first_line-split 4000) (omega (arith, length-letters 4001))

-- A bot that counts the commands that it has run.
abbrev counter : Handlers ℕ
counter = (codes "halt", λ id args n. (suc n, replied (codes "ok"))) ∷ []

abbrev counting_bot : Bot
counting_bot = record {
  service = accepting;
  chat_id = codes "42";
  listing = λ cmd. codes "commands: /halt";
}

abbrev updates : List Update
updates =
    record { update_id = 7; chat = codes "13"; text = codes "/halt" }
    ∷ record { update_id = 8; chat = codes "42"; text = codes " /Halt@bot now " }
    ∷ []

abbrev idle : PollState ℕ
idle = record { offset = none; posts = []; app = 0 }

handle_updates-from_chat_example :
    seen (handle_updates counting_bot counter updates 0 idle)
    ≡ seen (handle_updates counting_bot counter (from_chat counting_bot updates) 0 idle)
handle_updates-from_chat_example = handle_updates-from_chat counting_bot counter updates 0 idle

test_command : command_of (codes "/Halt@bot") ≡ codes "halt"
unfolding command_of lower_text before_at strip_slashes
test_command = refl
