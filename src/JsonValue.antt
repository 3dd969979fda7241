-- ===== src/JsonValue.antt =====
-- What the program does with a value that `json.loads` gives it: `data.get`, `str` and truth values.
use secnano.Prelude.{
  String, Bool, true, false, not, Option, none, some, List, [], ◌∷◌, ◌==◌, if◌then◌else◌, eqb,
  is_empty, show,
}
use secnano.Types.{Json, null, boolean, number, text}

-- `data.get(key)`
unfoldable pub get_item : String → List (String × Json) → Option Json
get_item key [] = none
get_item key ((k, v) ∷ rest) = if k == key then some v else get_item key rest

abbrev pub str_of : Json → String
str_of null = "None"
str_of (boolean true) = "True"
str_of (boolean false) = "False"
str_of (number n) = show n
str_of (text s) = s

-- `bool(v)`
abbrev pub is_true : Json → Bool
is_true null = false
is_true (boolean b) = b
is_true (number n) = not (eqb n 0)
is_true (text s) = not (is_empty s)

-- `data.get(key, default)` for a text. The files hold texts there; another value is taken as its text.
unfoldable pub text_field : String → String → List (String × Json) → String
unfolding get_item
text_field key default fields = elim (get_item key fields) [ none ↦ default | some v ↦ str_of v ]

abbrev optional_text : Json → Option String
optional_text null = none
optional_text (text s) = some s
optional_text v = some (str_of v)

-- `data.get(key)` for a text or null
unfoldable pub optional_field : String → List (String × Json) → Option String
unfolding get_item
optional_field key fields = elim (get_item key fields) [ none ↦ none | some v ↦ optional_text v ]

-- `data.get(key, False)` where only its truth value is used
unfoldable pub flag_field : String → List (String × Json) → Bool
unfolding get_item
flag_field key fields = elim (get_item key fields) [ none ↦ false | some v ↦ is_true v ]

abbrev optional_flag_of : Json → Option Bool
optional_flag_of null = none
optional_flag_of v = some (is_true v)

-- `data.get(key)` for a Boolean or null
unfoldable pub optional_flag : String → List (String × Json) → Option Bool
unfolding get_item
optional_flag key fields = elim (get_item key fields) [ none ↦ none | some v ↦ optional_flag_of v ]

-- `str(data.get(key) or default)`
unfoldable pub text_or : String → String → List (String × Json) → String
unfolding get_item
text_or key default fields = elim (get_item key fields) [
  | none ↦ default
  | some v ↦ if is_true v then str_of v else default
]
