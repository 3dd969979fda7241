-- ===== src/GroupFolder.antt =====
-- secnano/group_folder.py: which names may be group folders.
pub mod Safety
pub mod Stripped
use Prim.Native.Char.{code}
use Prim.Native.String.{[], ◌∷◌}
use secnano.Prelude.{
  ℕ, zero, suc, String, Bool, true, false, not, ◌&&◌, ◌||◌, leb, eqb, if◌then◌else◌, ◌==◌, is_empty,
}

-- `[A-Za-z0-9]`
unfoldable pub is_alnum : ℕ → Bool
is_alnum c = (leb 65 c && leb c 90) || (leb 97 c && leb c 122) || (leb 48 c && leb c 57)

-- `[A-Za-z0-9_-]`
unfoldable pub is_word : ℕ → Bool
unfolding is_alnum
is_word c = is_alnum c || eqb c 95 || eqb c 45

-- `ch in name`
unfoldable pub contains_code : ℕ → String → Bool
contains_code ch [] = false
contains_code ch (c ∷ s) = eqb (code c) ch || contains_code ch s

-- `[A-Za-z0-9_-]{0,n}$`: in `re`, `$` also matches before a newline that ends the text.
unfoldable pub matches_tail : ℕ → String → Bool
unfolding is_word
matches_tail n [] = true
matches_tail zero (c ∷ s) = eqb (code c) 10 && is_empty s
matches_tail (suc n) (c ∷ s) =
    let rest = matches_tail n s in if is_word (code c) then rest else eqb (code c) 10 && is_empty s

-- `_VALID_PATTERN.match(name)`
unfoldable pub matches_pattern : String → Bool
unfolding is_alnum matches_tail
matches_pattern [] = false
matches_pattern (c ∷ s) = is_alnum (code c) && matches_tail 63 s

unfoldable pub is_valid_group_folder : String → Bool
unfolding contains_code matches_pattern
is_valid_group_folder name =
    if is_empty name || contains_code 47 name || contains_code 92 name
    then false
    else if name == "global"
    then false
    else matches_pattern name
