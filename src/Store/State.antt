-- ===== src/Store/State.antt =====
-- The key/value state of src/tqt/data/store.py. The JSON encoder and decoder are parameters; the
-- decoder has no answer where it raises a ValueError.
use Prim.Native.Char.{Char, code}
use toss_api_quant_trading.Prelude.Dict.{Dict, lookup, insert, lookup-insert_self, lookup-insert_ne}
use toss_api_quant_trading.Prelude.{
  Option, ℕ, Bool, String, ◌≡◌, false, ◌==◌, if◌then◌else◌, ◌||◌, some, leb, none, true, member,
  ◌≢◌, ◌&&◌, ◌∷◌, refl, [],
}

pub data StateValue (J : Type 0) : Type 0 where
  plain_text : String → StateValue J
  json : J → StateValue J

pub record Codec (J : Type 0) : Type 0 where
  pub dumps : J → String
  pub loads : String → Option J

-- The white space that `strip` removes, of the first 256 characters.
abbrev pub is_space : ℕ → Bool
is_space c = c == 32 || c == 133 || c == 160 || leb 9 c && leb c 13 || leb 28 c && leb c 31

abbrev pub lstrip : String → String
lstrip String.[] = ""
lstrip (String.◌∷◌ c s) = let rest = lstrip s in if is_space (code c) then rest else String.◌∷◌ c s

abbrev pub keep_char : Bool → Char → String → String
keep_char true c String.[] = ""
keep_char _ c rest = String.◌∷◌ c rest

abbrev pub rstrip : String → String
rstrip String.[] = ""
rstrip (String.◌∷◌ c s) = keep_char (is_space (code c)) c (rstrip s)

abbrev pub strip : String → String
strip s = lstrip (rstrip s)

-- A text that begins like a JSON container or text: with one of the characters `{`, `[` and `"`.
abbrev pub opens_json : String → Bool
opens_json String.[] = false
opens_json (String.◌∷◌ c s) = code c == 123 || code c == 91 || code c == 34

-- What `get_state` tries to decode, of a stripped text.
abbrev pub looks_encoded : String → Bool
looks_encoded stripped = opens_json stripped || member stripped ("true" ∷ "false" ∷ "null" ∷ [])

module _ {J : Type 0} (codec : Codec J) where
  abbrev pub payload : StateValue J → String
  payload (plain_text t) = t
  payload (json j) = codec.dumps j

  -- `set_state`
  unfoldable pub set_state : String → StateValue J → Dict String → Dict String
  set_state key value table = insert key (payload value) table

  abbrev pub or_raw : String → Option J → StateValue J
  or_raw raw none = plain_text raw
  or_raw raw (some j) = json j

  abbrev pub decoded : String → StateValue J
  decoded raw =
      let stripped = strip raw in
      if looks_encoded stripped then or_raw raw (codec.loads stripped) else plain_text raw

  abbrev pub read_row : StateValue J → Option String → StateValue J
  read_row fallback none = fallback
  read_row fallback (some raw) = decoded raw

  -- `get_state`
  unfoldable pub get_state : String → StateValue J → Dict String → StateValue J
  get_state key fallback table = read_row fallback (lookup key table)

  -- A text that does not look like JSON, or a value whose encoding does and decodes to it.
  abbrev pub ReadsBack : StateValue J → Type 0
  ReadsBack (plain_text t) = looks_encoded (strip t) ≡ false
  ReadsBack (json j) =
      (looks_encoded (strip (codec.dumps j)) ≡ true)
      × (codec.loads (strip (codec.dumps j)) ≡ some j)

  decoded-payload : (v : StateValue J) → ReadsBack v → decoded (payload v) ≡ v
  decoded-payload (plain_text t) e = rw e refl
  decoded-payload (json j) (e, f) = rw (e, f) refl

  -- Round trip: a text that does not look like JSON, or a value whose encoding does and decodes to
  -- it, is read back as it was written, and every other key reads as before.
  pub get_state-set_state :
      (key other : String) (v fallback : StateValue J) (table : Dict String)
      → ReadsBack v
      → (get_state key fallback (set_state key v table) ≡ v)
        × (other ≢ key
            → get_state other fallback (set_state key v table) ≡ get_state other fallback table)
  unfolding get_state set_state
  get_state-set_state key other v fallback table h = (
    rw (lookup-insert_self key (payload v) table) (decoded-payload v h),
    λ n. rw (lookup-insert_ne key other (payload v) table n) refl,
  )
