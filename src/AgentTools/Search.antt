-- ===== src/AgentTools/Search.antt =====
-- Python's `in`, `startswith`, `replace`, `join` and `splitlines`, where agent_runner/tools.py uses them.
use Prim.Native.Char.{code}
use secnano.Prelude.{
  ℕ, String, Bool, false, ◌||◌, ◌&&◌, Option, none, some, List, [], ◌∷◌, leb, eqb, if◌then◌else◌,
  is_some, ◌⧺◌,
}

-- What is behind a prefix.
unfoldable pub after_text : String → String → Option String
after_text String.[] s = some s
after_text (String.◌∷◌ c p) String.[] = none
after_text (String.◌∷◌ c p) (String.◌∷◌ d s) =
    if eqb (code c) (code d) then after_text p s else none

-- `s.startswith(prefix)`
abbrev pub starts_with : String → String → Bool
starts_with prefix s = is_some (after_text prefix s)

-- `old in s`
unfoldable pub contains : String → String → Bool
unfolding after_text
contains old String.[] = is_some (after_text old "")
contains old (String.◌∷◌ c s) = is_some (after_text old (String.◌∷◌ c s)) || contains old s

-- The text with `new` in place of the prefix; or else the other text.
abbrev pub replaced_or : String → Option String → String → String
replaced_or new (some rest) other = new ⧺ rest
replaced_or new none other = other

-- `s.replace(old, new, 1)`
unfoldable pub replace_first : String → String → String → String
unfolding after_text ◌⧺◌
replace_first old new String.[] = replaced_or new (after_text old "") ""
replace_first old new (String.◌∷◌ c s) =
    let rest = replace_first old new s in
    replaced_or new (after_text old (String.◌∷◌ c s)) (String.◌∷◌ c rest)

-- `"\n".join(lines)`
unfoldable pub join_lines : List String → String
unfolding ◌⧺◌
join_lines [] = ""
join_lines (line ∷ []) = line
join_lines (line ∷ next ∷ lines) = line ⧺ "\n" ⧺ join_lines (next ∷ lines)

-- Where `str.splitlines` ends a line.
unfoldable pub is_line_end : ℕ → Bool
is_line_end c =
    (leb 10 c && leb c 13) || (leb 28 c && leb c 30) || eqb c 0x85 || eqb c 0x2028 || eqb c 0x2029

abbrev pub starts_newline : String → Bool
starts_newline String.[] = false
starts_newline (String.◌∷◌ c s) = eqb (code c) 10

-- A character in front of the first line.
abbrev pub put_front : String → List String → List String
put_front c [] = c ∷ []
put_front c (line ∷ lines) = (c ⧺ line) ∷ lines

-- `s.splitlines()`; `\r\n` is one end of a line.
unfoldable pub splitlines : String → List String
unfolding is_line_end ◌⧺◌
splitlines String.[] = []
splitlines (String.◌∷◌ c s) =
    let rest = splitlines s in
    if eqb (code c) 13 && starts_newline s
    then rest
    else if is_line_end (code c)
    then "" ∷ rest
    else put_front (String.◌∷◌ c "") rest
