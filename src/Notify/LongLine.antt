-- ===== src/Notify/LongLine.antt =====
-- A message that starts with a line over the limit.
use toss_api_quant_trading.Notify.Text.{Text, html_escape, join, split_lines}
use toss_api_quant_trading.Notify.Chunks.{Level, chunks, pack_lines, with_emoji}
use toss_api_quant_trading.Notify.Pack.{join-split_lines}
use toss_api_quant_trading.Notify.Group.{Post, Service}
use toss_api_quant_trading.Notify.Telegram.{telegram_send, post_chunks, max_message}
use toss_api_quant_trading.Prelude.{
  ℕ, some, List, [], ◌∷◌, ◌++◌, false, ◌≡◌, ◌<◌, leb, length, ◌+◌, ap, length-append, arith, lt→ltb,
  inl, inr, Bool-cases, leb→le, refl,
}

pack_lines-flush :
    (size : ℕ) (l : Text) (ls : List Text)
    → size < length l
    → pack_lines size (l ∷ ls) [] ≡ [] ∷ pack_lines size ls l
unfolding pack_lines
pack_lines-flush size l ls h = rw (lt→ltb size (0 + length l) (omega arith)) refl

-- The first chunk is empty.
chunks-empty_first :
    (body l : Text) (ls : List Text) (size : ℕ)
    → split_lines body ≡ l ∷ ls
    → size < length l
    → chunks body size ≡ [] ∷ pack_lines size ls l
unfolding chunks
chunks-empty_first body l ls size e h =
    let whole : length body ≡ length l + length (join ls) = omega (
      arith,
      ap length (join-split_lines body),
      ap (λ ts. length (join ts)) e,
      length-append l (join ls),
    ) in
    elim (Bool-cases (leb (length body) size)) [
      | inl q ↦ absurd (omega (arith, leb→le _ _ q))
      | inr q ↦ rw (q, e) (pack_lines-flush size l ls h)
    ]

-- A service that refuses an empty text gets no later chunk.
post_chunks-refused :
    (service : Service) (cs : List Text) (posts : List Post)
    → service posts [] ≡ some 400
    → post_chunks service ([] ∷ cs) posts
      ≡ (posts ++ record { content = []; status = some 400 } ∷ [], some false)
unfolding post_chunks
post_chunks-refused service cs posts e = ground arith

-- Where a message's first line alone, with its emoji, is over the limit, Telegram gets one empty
-- message and nothing else: from a service that refuses an empty text `send` returns False, and no
-- part of the text has been posted.
pub telegram_send-long_line :
    (service : Service) (level : Level) (text l : Text) (ls : List Text) (posts : List Post)
    → ((sent : List Post) → service sent [] ≡ some 400)
    → split_lines (with_emoji level (html_escape text)) ≡ l ∷ ls
    → max_message < length l
    → telegram_send service level text posts
      ≡ (posts ++ record { content = []; status = some 400 } ∷ [], some false)
unfolding telegram_send
telegram_send-long_line service level text l ls posts refuses e h =
    rw (chunks-empty_first _ l ls max_message e h)
      (post_chunks-refused service (pack_lines max_message ls l) posts (refuses posts))
