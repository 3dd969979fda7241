-- ===== src/Prelude/Order.antt =====
-- The order of texts by code points, as Python and SQLite (BINARY collation) compare them.
use Prim.Native.Char.{code}
use Prim.Native.String.{String, [], ◌∷◌}
use mathlib.Core.Path.{◌≡◌, refl}
use mathlib.Core.Bool.{Bool, true, false}
use native.Mathlib.Omega.{arith}
use secnano.Prelude.Tests.{if◌then◌else◌, ltb}

-- `s <= t`
unfoldable pub str_le : String → String → Bool
str_le [] t = true
str_le (c ∷ s) [] = false
str_le (c ∷ s) (d ∷ t) =
    let rest = str_le s t in
    if ltb (code c) (code d) then true else if ltb (code d) (code c) then false else rest

pub str_le_refl : (s : String) → str_le s s ≡ true
unfolding str_le
str_le_refl [] = refl
str_le_refl (c ∷ s) = ground (arith, str_le_refl s)

pub str_le_total : (s t : String) → str_le s t ≡ false → str_le t s ≡ true
unfolding str_le
str_le_total [] t h = cc
str_le_total (c ∷ s) [] h = refl
str_le_total (c ∷ s) (d ∷ t) h = ground (arith, str_le_total s t)

pub str_le_trans : (s t u : String) → str_le s t ≡ true → str_le t u ≡ true → str_le s u ≡ true
unfolding str_le
str_le_trans [] t u p q = refl
str_le_trans (c ∷ s) [] u p q = cc
str_le_trans (c ∷ s) (d ∷ t) [] p q = cc
str_le_trans (c ∷ s) (d ∷ t) (e ∷ u) p q = ground (arith, str_le_trans s t u)
