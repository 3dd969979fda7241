-- ===== src/Prelude/Text.antt =====
-- Python's `str` as the native `String`: truth values, `or`, whitespace and concatenation.
use Prim.Native.Nat.{ℕ, zero, suc, ◌+◌, ◌/◌, ◌%◌}
use Prim.Native.Char.{code}
use Prim.Native.String.{String, [], ◌∷◌}
use mathlib.Core.Path.{◌≡◌, refl, ap, ◌∙◌}
use mathlib.Core.Bool.{Bool, true, false, not, ◌&&◌, ◌||◌}
use mathlib.Core.Option.{Option, none, some}
use native.Mathlib.Omega.{arith}
use secnano.Prelude.Tests.{if◌then◌else◌, leb, ltb, eqb}

-- `not s`
abbrev pub is_empty : String → Bool
is_empty [] = true
is_empty (c ∷ s) = false

-- `len(s)`, the number of code points
abbrev pub str_len : String → ℕ
str_len [] = 0
str_len (c ∷ s) = suc (str_len s)

infixr 65 ◌⧺◌
unfoldable pub ◌⧺◌ : String → String → String
[] ⧺ t = t
(c ∷ s) ⧺ t = c ∷ (s ⧺ t)

-- `s or t`
abbrev pub str_or : String → String → String
str_or s t = if is_empty s then t else s

-- `o or t`, for an optional text
abbrev pub opt_or : Option String → String → String
opt_or none t = t
opt_or (some s) t = str_or s t

-- The truth value of an optional text: `None` and the empty text are false.
abbrev pub opt_true : Option String → Bool
opt_true none = false
opt_true (some s) = not (is_empty s)

-- `str.isspace` of one character.
unfoldable pub is_space : ℕ → Bool
is_space c =
    (leb 9 c && leb c 13)
    || (leb 28 c && leb c 32)
    || eqb c 0x85
    || eqb c 0xa0
    || eqb c 0x1680
    || (leb 0x2000 c && leb c 0x200a)
    || eqb c 0x2028
    || eqb c 0x2029
    || eqb c 0x202f
    || eqb c 0x205f
    || eqb c 0x3000

unfoldable pub lstrip : String → String
unfolding is_space
lstrip [] = []
lstrip (c ∷ s) = if is_space (code c) then lstrip s else c ∷ s

unfoldable pub rstrip : String → String
unfolding is_space
rstrip [] = []
rstrip (c ∷ s) = let rest = rstrip s in if is_space (code c) && is_empty rest then [] else c ∷ rest

-- `s.strip()`
unfoldable pub strip : String → String
unfolding lstrip rstrip
strip s = rstrip (lstrip s)

pub rstrip_idem : (s : String) → rstrip (rstrip s) ≡ rstrip s
unfolding rstrip
rstrip_idem [] = refl
rstrip_idem (c ∷ s) = ground (arith, rstrip_idem s)

lstrip-rstrip-lstrip : (s : String) → lstrip (rstrip (lstrip s)) ≡ rstrip (lstrip s)
unfolding lstrip rstrip
lstrip-rstrip-lstrip [] = refl
lstrip-rstrip-lstrip (c ∷ s) = ground (arith, lstrip-rstrip-lstrip s)

pub strip_idem : (s : String) → strip (strip s) ≡ strip s
unfolding strip
strip_idem s = ap rstrip (lstrip-rstrip-lstrip s) ∙ rstrip_idem (lstrip s)

pub append-nil_str : (s : String) → s ⧺ [] ≡ s
unfolding ◌⧺◌
append-nil_str [] = refl
append-nil_str (c ∷ s) = ap (λ r. c ∷ r) (append-nil_str s)

pub append_assoc_str : (s t u : String) → (s ⧺ t) ⧺ u ≡ s ⧺ (t ⧺ u)
unfolding ◌⧺◌
append_assoc_str [] t u = refl
append_assoc_str (c ∷ s) t u = ap (λ r. c ∷ r) (append_assoc_str s t u)

pub str_len-append : (s t : String) → str_len (s ⧺ t) ≡ str_len s + str_len t
unfolding ◌⧺◌
str_len-append [] t = omega arith
str_len-append (c ∷ s) t = omega (arith, str_len-append s t)

abbrev digit : ℕ → String
digit n =
    if eqb n 0
    then "0"
    else if eqb n 1
    then "1"
    else if eqb n 2
    then "2"
    else if eqb n 3
    then "3"
    else if eqb n 4
    then "4"
    else if eqb n 5
    then "5"
    else if eqb n 6
    then "6"
    else if eqb n 7
    then "7"
    else if eqb n 8
    then "8"
    else "9"

show_from : ℕ → ℕ → String
unfolding ◌⧺◌
show_from zero n = []
show_from (suc fuel) n =
    let rest = show_from fuel (n / 10) in if ltb n 10 then digit n else rest ⧺ digit (n % 10)

-- `str(n)` of a number: there are at most as many digits as the number is large, or one.
unfoldable pub show : ℕ → String
unfolding show_from
show n = show_from (suc n) n
