-- ===== src/Notify/Text.antt =====
-- What src/tqt/notify uses of Python's texts, on lists of code points: `splitlines`, `html.escape`,
-- `split`, `lstrip` and `lower`. `lower` is that of ASCII; other letters stay as they are.
use toss_api_quant_trading.Prelude.{
  ℕ, Bool, List, [], ◌∷◌, ◌++◌, true, false, ◌&&◌, ◌||◌, not, leb, ◌==◌, if◌then◌else◌, ◌+◌,
}
use toss_api_quant_trading.Universe.{codes}

abbrev pub Text : Type 0
Text = List ℕ

-- A list without its nesting: `"".join(parts)`.
abbrev pub join : List Text → Text
join [] = []
join (t ∷ ts) = t ++ join ts

abbrev pub same : Text → Text → Bool
same [] [] = true
same (x ∷ xs) (y ∷ ys) = x == y && same xs ys
same _ _ = false

abbrev pub occurs : ℕ → List ℕ → Bool
occurs c [] = false
occurs c (x ∷ xs) = c == x || occurs c xs

-- The line boundaries of `splitlines`.
abbrev pub boundaries : List ℕ
boundaries = 10 ∷ 11 ∷ 12 ∷ 13 ∷ 28 ∷ 29 ∷ 30 ∷ 133 ∷ 8232 ∷ 8233 ∷ []

abbrev pub starts_with_newline : Text → Bool
starts_with_newline [] = false
starts_with_newline (c ∷ t) = c == 10

-- Whether a line ends after this character; a return and a newline are one boundary.
unfoldable pub ends_line : ℕ → Text → Bool
ends_line c rest = occurs c boundaries && not (c == 13 && starts_with_newline rest)

abbrev pub glue : ℕ → List Text → List Text
glue c [] = (c ∷ []) ∷ []
glue c (l ∷ ls) = (c ∷ l) ∷ ls

-- `text.splitlines(keepends=True)`
unfoldable pub split_lines : Text → List Text
split_lines [] = []
split_lines (c ∷ rest) =
    let later = split_lines rest in if ends_line c rest then (c ∷ []) ∷ later else glue c later

-- `html.escape`, by characters.
unfoldable pub escape_char : ℕ → Text
escape_char c =
    if c == 38
    then codes "&amp;"
    else if c == 60
    then codes "&lt;"
    else if c == 62
    then codes "&gt;"
    else if c == 34
    then codes "&quot;"
    else if c == 39
    then codes "&#x27;"
    else c ∷ []

unfoldable pub html_escape : Text → Text
html_escape [] = []
html_escape (c ∷ t) = escape_char c ++ html_escape t

-- `str.isspace` of one character.
unfoldable pub is_space_char : ℕ → Bool
is_space_char c =
    leb 9 c && leb c 13
    || leb 28 c && leb c 32
    || leb 8192 c && leb c 8202
    || occurs c (133 ∷ 160 ∷ 5760 ∷ 8232 ∷ 8233 ∷ 8239 ∷ 8287 ∷ 12288 ∷ [])

-- A character before the words that follow; `open` when it continues the first of them.
abbrev pub add_char : Bool → ℕ → List Text → List Text
add_char open_word c [] = (c ∷ []) ∷ []
add_char true c (w ∷ ws) = (c ∷ w) ∷ ws
add_char false c (w ∷ ws) = (c ∷ []) ∷ w ∷ ws

abbrev pub starts_word : Text → Bool
starts_word [] = false
starts_word (c ∷ t) = not (is_space_char c)

-- `text.split()`, which needs no `strip` before it.
unfoldable pub words : Text → List Text
words [] = []
words (c ∷ rest) =
    let later = words rest in if is_space_char c then later else add_char (starts_word rest) c later

-- `text.lstrip("/")`
unfoldable pub strip_slashes : Text → Text
strip_slashes [] = []
strip_slashes (c ∷ t) = let later = strip_slashes t in if c == 47 then later else c ∷ t

-- `text.split("@")[0]`
unfoldable pub before_at : Text → Text
before_at [] = []
before_at (c ∷ t) = let later = before_at t in if c == 64 then [] else c ∷ later

unfoldable pub lower_text : Text → Text
lower_text [] = []
lower_text (c ∷ t) = (if leb 65 c && leb c 90 then c + 32 else c) ∷ lower_text t
