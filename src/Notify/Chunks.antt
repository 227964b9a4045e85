-- ===== src/Notify/Chunks.antt =====
-- `_chunks`, the same function in src/tqt/notify/telegram.py and discord.py, and the levels of
-- base.py.
use toss_api_quant_trading.Notify.Text.{Text, split_lines}
use toss_api_quant_trading.Prelude.{ℕ, List, [], ◌∷◌, ◌++◌, leb, ltb, length, if◌then◌else◌, ◌+◌}

pub data Level : Type 0 where
  info trade warn error : Level

abbrev pub emoji : Level → Text
emoji info = 8505 ∷ 65039 ∷ []
emoji trade = 128177 ∷ []
emoji warn = 9888 ∷ 65039 ∷ []
emoji error = 128680 ∷ []

-- `f"{level.emoji} {text}"`
abbrev pub with_emoji : Level → Text → Text
with_emoji level text = emoji level ++ 32 ∷ text

abbrev pub last_chunk : Text → List Text
last_chunk [] = []
last_chunk (c ∷ t) = (c ∷ t) ∷ []

-- The loop over the lines, with the chunk that is being filled.
unfoldable pub pack_lines : ℕ → List Text → Text → List Text
pack_lines size [] cur = last_chunk cur
pack_lines size (line ∷ lines) cur =
    let flushed = cur ∷ pack_lines size lines line in
    let filled = pack_lines size lines (cur ++ line) in
    if ltb size (length cur + length line) then flushed else filled

unfoldable pub chunks : Text → ℕ → List Text
chunks text size =
    if leb (length text) size then text ∷ [] else pack_lines size (split_lines text) []
