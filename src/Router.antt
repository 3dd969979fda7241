-- ===== src/Router.antt =====
-- secnano/router.py, and `_truncate` of secnano/main.py: texts for the agent and for the user.
pub mod Escaping
use Prim.Native.Char.{code}
use Prim.Native.String.{[] as end}
use secnano.Prelude.{
  ℕ, zero, suc, ◌+◌, ◌-◌, String, Bool, true, false, not, ◌&&◌, ◌||◌, Option, none, some, List, [],
  ◌∷◌, leb, eqb, if◌then◌else◌, is_empty, str_or, ◌⧺◌, strip, str_len, is_space,
}
use secnano.Types.{Message}

abbrev pub escape_code : ℕ → String → String
escape_code c other =
    if eqb c 38
    then "&amp;"
    else if eqb c 60
    then "&lt;"
    else if eqb c 62
    then "&gt;"
    else if eqb c 34
    then "&quot;"
    else if eqb c 39
    then "&#x27;"
    else other

-- `html.escape(s, quote=True)`
unfoldable pub escape_xml : String → String
unfolding ◌⧺◌
escape_xml String.[] = ""
escape_xml (String.◌∷◌ c s) = escape_code (code c) (String.◌∷◌ c "") ⧺ escape_xml s

abbrev pub sender_label : Message → String
unfolding escape_xml
sender_label msg = if msg.is_from_me then "me" else escape_xml (str_or msg.sender_name msg.sender)

-- `local_time` is `format_local_time` of secnano/timezone_utils.py at the given time zone.
unfoldable pub message_line : (String → String) → Message → String
unfolding escape_xml
message_line local_time msg =
    "  <message from=\""
    ⧺ escape_xml (sender_label msg)
    ⧺ "\" time=\""
    ⧺ escape_xml (local_time msg.timestamp)
    ⧺ "\">"
    ⧺ escape_xml msg.content
    ⧺ "</message>"

unfoldable pub message_lines : (String → String) → List Message → String
unfolding message_line
message_lines local_time [] = "</conversation>"
message_lines local_time (msg ∷ rest) =
    message_line local_time msg ⧺ "\n" ⧺ message_lines local_time rest

unfoldable pub format_messages : (String → String) → List Message → String
unfolding message_lines
format_messages local_time messages = "<conversation>\n" ⧺ message_lines local_time messages

-- `re.IGNORECASE` against a lower-case ASCII letter; `i` also meets U+0130 and U+0131.
abbrev same_letter : ℕ → ℕ → Bool
same_letter c d =
    eqb c d || (leb 97 d && leb d 122 && (eqb (c + 32) d || (eqb d 105 && leb 304 c && leb c 305)))

-- The text behind a prefix.
unfoldable pub after_prefix : String → String → Option String
after_prefix String.[] s = some s
after_prefix (String.◌∷◌ d t) String.[] = none
after_prefix (String.◌∷◌ d t) (String.◌∷◌ c s) =
    if same_letter (code c) (code d) then after_prefix t s else none

-- How many characters `.*?</internal>` takes at the start of the text.
unfoldable pub close_length : String → Option ℕ
unfolding after_prefix
close_length String.[] = none
close_length (String.◌∷◌ c s) =
    let rest = close_length s in
    elim (after_prefix "</internal>" (String.◌∷◌ c s)) [
      | some _ ↦ some 11
      | none ↦ elim rest [ none ↦ none | some n ↦ some (suc n) ]
    ]

abbrev block_length : Option String → Option ℕ
unfolding close_length
block_length none = none
block_length (some body) = elim (close_length body) [ none ↦ none | some n ↦ some (10 + n) ]

-- `_INTERNAL_TAG_RE.sub("", text)`: the first argument counts the characters still to be skipped.
unfoldable pub remove_blocks : ℕ → String → String
unfolding after_prefix close_length
remove_blocks skip String.[] = ""
remove_blocks (suc skip) (String.◌∷◌ c s) = remove_blocks skip s
remove_blocks zero (String.◌∷◌ c s) =
    elim (block_length (after_prefix "<internal>" (String.◌∷◌ c s))) [
      | none ↦ String.◌∷◌ c (remove_blocks zero s)
      | some n ↦ remove_blocks (n - 1) s
    ]

unfoldable pub format_outbound : String → String
unfolding remove_blocks strip
format_outbound text = strip (remove_blocks zero text)

-- `" ".join(text.split())`: whitespace waits, as one space, for the next word.
compact_from : Bool → Bool → String → String
unfolding is_space
compact_from begun waiting String.[] = ""
compact_from begun waiting (String.◌∷◌ c s) =
    let space = is_space (code c) in
    let rest = compact_from (begun || not space) space s in
    if space then rest else if begun && waiting then " " ⧺ String.◌∷◌ c rest else String.◌∷◌ c rest

unfoldable pub str_take : ℕ → String → String
str_take zero s = ""
str_take (suc n) String.[] = ""
str_take (suc n) (String.◌∷◌ c s) = String.◌∷◌ c (str_take n s)

abbrev shorten : ℕ → String → String
unfolding str_take ◌⧺◌
shorten limit compact =
    if leb (str_len compact) limit then compact else str_take (limit - 1) compact ⧺ "…"

unfoldable pub truncate : Option String → ℕ → Option String
unfolding compact_from str_take ◌⧺◌
truncate none limit = none
truncate (some text) limit = some (shorten limit (compact_from false false text))
