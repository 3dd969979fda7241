-- ===== src/EnvFile.antt =====
-- secnano/env.py: the reading of a `.env` file.
pub mod Quotes
use Prim.Native.Char.{code}
use Prim.Native.String.{[] as end}
use secnano.Prelude.{
  ℕ, String, Bool, true, false, not, ◌&&◌, ◌||◌, Option, none, some, List, [], ◌∷◌, ◌==◌, leb, eqb,
  if◌then◌else◌, is_empty, lstrip, strip, str_len,
}
use secnano.AgentTools.Search.{splitlines}

-- `[A-Za-z_]` and `[A-Za-z0-9_]`
abbrev pub is_name_start : ℕ → Bool
is_name_start c = (leb 65 c && leb c 90) || (leb 97 c && leb c 122) || eqb c 95

abbrev pub is_name_char : ℕ → Bool
is_name_char c = is_name_start c || (leb 48 c && leb c 57)

-- The longest beginning of name characters, and the rest.
unfoldable pub split_name : String → String × String
split_name String.[] = ("", "")
split_name (String.◌∷◌ c s) =
    let (name, rest) = split_name s in
    if is_name_char (code c) then (String.◌∷◌ c name, rest) else ("", String.◌∷◌ c s)

abbrev pub value_behind : String → Option String
value_behind String.[] = none
value_behind (String.◌∷◌ c s) = if eqb (code c) 61 then some (strip s) else none

abbrev pub starts_name : String → Bool
starts_name String.[] = false
starts_name (String.◌∷◌ c s) = is_name_start (code c)

abbrev pub named : String → Option String → Option (String × String)
named name none = none
named name (some v) = some (name, v)

-- `_KV_RE.match(line)`: the key and the raw value. A name is followed by no character of a name, and
-- white space is none, so nothing has to be tried twice.
unfoldable pub match_pair : String → Option (String × String)
unfolding split_name lstrip strip
match_pair line =
    let stripped = lstrip line in
    let (name, rest) = split_name stripped in
    if starts_name stripped then named name (value_behind (lstrip rest)) else none

-- `_COMMENT_RE.match(line) or _BLANK_RE.match(line)`
abbrev starts_hash : String → Bool
starts_hash String.[] = true
starts_hash (String.◌∷◌ c s) = eqb (code c) 35

unfoldable pub is_skipped : String → Bool
unfolding lstrip
is_skipped line = starts_hash (lstrip line)

-- The text without its last character, and that character.
abbrev pub last_code : ℕ → String → ℕ
last_code c String.[] = c
last_code c (String.◌∷◌ d s) = last_code (code d) s

abbrev pub drop_last : String → String
drop_last String.[] = ""
drop_last (String.◌∷◌ c String.[]) = ""
drop_last (String.◌∷◌ c (String.◌∷◌ d s)) = String.◌∷◌ c (drop_last (String.◌∷◌ d s))

-- `_strip_quotes`
unfoldable pub strip_quotes : String → String
strip_quotes String.[] = ""
strip_quotes (String.◌∷◌ c String.[]) = String.◌∷◌ c ""
strip_quotes (String.◌∷◌ c (String.◌∷◌ d s)) =
    let last = last_code (code d) s in
    if (eqb (code c) 34 && eqb last 34) || (eqb (code c) 39 && eqb last 39)
    then drop_last (String.◌∷◌ d s)
    else String.◌∷◌ c (String.◌∷◌ d s)

-- `result[key] = value`
unfoldable pub set_item : String → String → List (String × String) → List (String × String)
set_item key v [] = (key, v) ∷ []
set_item key v ((k, w) ∷ rest) =
    let others = set_item key v rest in if k == key then (k, v) ∷ rest else (k, w) ∷ others

abbrev pub set_pair : Option (String × String) → List (String × String) → List (String × String)
set_pair none result = result
set_pair (some (key, raw_value)) result = set_item key (strip_quotes raw_value) result

unfoldable pub read_lines : List String → List (String × String) → List (String × String)
unfolding match_pair is_skipped set_item strip_quotes
read_lines [] result = result
read_lines (line ∷ lines) result =
    read_lines lines (if is_skipped line then result else set_pair (match_pair line) result)

-- `read_env_file`; `none` for a file that does not exist.
unfoldable pub read_env_file : Option String → List (String × String)
unfolding read_lines splitlines
read_env_file none = []
read_env_file (some content) = read_lines (splitlines content) []
