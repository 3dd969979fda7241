-- ===== src/Settings/Environ.antt =====
-- Environments and the dictionary of the `.env` file, as association lists.
use secnano.Prelude.{
  String, ◌≡◌, refl, Option, none, some, List, [], ◌∷◌, ◌==◌, if◌then◌else◌, arith, eq_iff,
}
use secnano.EnvFile.{set_item}

abbrev pub Variables : Type 0
Variables = List (String × String)

-- `os.environ.get(key)`
unfoldable pub get_var : String → Variables → Option String
get_var key [] = none
get_var key ((k, v) ∷ rest) = if k == key then some v else get_var key rest

abbrev pub or_default : Option String → String → String
or_default none default = default
or_default (some v) default = v

-- `os.environ.get(key, default)`
abbrev pub var_or : (key default : String) → Variables → String
var_or key default vars = or_default (get_var key vars) default

pub get_var-set_item :
    (j k v : String) (vars : Variables)
    → get_var j (set_item k v vars) ≡ (if k == j then some v else get_var j vars)
unfolding get_var set_item
get_var-set_item j k v [] = refl
get_var-set_item j k v ((i, w) ∷ rest) =
    ground (arith, eq_iff k j, eq_iff i k, eq_iff i j, get_var-set_item j k v rest)
