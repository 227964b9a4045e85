-- ===== src/Notify.antt =====
-- src/tqt/notify: the channels. Texts are lists of code points. Chunks cuts a text into messages,
-- Group is the fan-out of base.py, Telegram and Discord the two channels, Commands the poll for
-- commands and its loop.
pub mod Text
pub mod Chunks
pub mod Pack
pub mod Group
pub mod FanOut
pub mod Telegram
pub mod Discord
pub mod LongLine
pub mod Commands
pub mod Authorised
pub mod Backoff
mod Tests
