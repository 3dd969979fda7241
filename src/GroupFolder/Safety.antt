-- ===== src/GroupFolder/Safety.antt =====
-- What the names that secnano/group_folder.py accepts look like.
use Prim.Native.Char.{Char, code}
use mathlib.Core.Path.{ap₂, subst}
use text.Mathlib.TextEquality.{Char-path}
use Prim.Native.String.{[], ◌∷◌}
use secnano.Prelude.{
  ℕ, zero, suc, ◌+◌, ◌≤◌, String, ◌≡◌, ◌≢◌, refl, ap, sym, ◌∙◌, ◌⊎◌, inl, inr, true, false, arith,
  ◌&&◌, ◌==◌, eq_iff, is_empty, lstrip, rstrip, rstrip_idem, strip, str_len, ◌⧺◌, str_len-append,
  Bool-cases, eqb, not,
}
use secnano.GroupFolder.{
  is_alnum, is_word, matches_tail, matches_pattern, contains_code, is_valid_group_folder,
}

-- Letters, digits, `_` and `-` only: no separator, no dot, no space, no control character.
abbrev pub AllWord : String → Type 0
AllWord [] = Unit
AllWord (c ∷ s) = (is_word (code c) ≡ true) × AllWord s

abbrev pub StartsAlnum : String → Type 0
StartsAlnum [] = ⊥
StartsAlnum (c ∷ s) = is_alnum (code c) ≡ true

-- The rules that the docstring of `is_valid_group_folder` gives.
pub record IsFolderName (name : String) : Type 0 where
  pub starts : StartsAlnum name
  pub words : AllWord name
  pub short : str_len name ≤ 64
  pub unreserved : name ≢ "global"

abbrev newline : String
newline = "\n"

abbrev newline_char : Char
newline_char = "\n"

is_empty-eq : (s : String) → is_empty s ≡ true → s ≡ []
is_empty-eq [] h = refl
is_empty-eq (c ∷ s) h = cc

-- A character and a rest that pass the `$` test for a final newline.
final_newline : (c : Char) (s : String) → (eqb (code c) 10 && is_empty s) ≡ true → (c ∷ s) ≡ newline
final_newline c s h =
    let ten : code c ≡ 10 = ground arith in
    let rest : is_empty s ≡ true = ground arith in
    ap₂ (λ (x : Char) (r : String). x ∷ r) (Char-path c newline_char ten) (is_empty-eq s rest)

matches_tail_split :
    (n : ℕ) (s : String)
    → matches_tail n s ≡ true
    → (t : String) × AllWord t × (str_len t ≤ n) × ((s ≡ t) ⊎ (s ≡ t ⧺ newline))
unfolding matches_tail ◌⧺◌
matches_tail_split zero [] h = ([], tt, omega arith, inl refl)
matches_tail_split (suc n) [] h = ([], tt, omega arith, inl refl)
matches_tail_split zero (c ∷ s) h = ([], tt, omega arith, inr (final_newline c s h))
matches_tail_split (suc n) (c ∷ s) h = elim (Bool-cases (is_word (code c))) [
  | inl w ↦
      let (t, all, short, split) = matches_tail_split n s (rw w at h) in
      (
        c ∷ t,
        (w, all),
        omega (arith, short),
        elim split [
          | inl e ↦ inl (ap (λ (r : String). c ∷ r) e)
          | inr e ↦ inr (ap (λ (r : String). c ∷ r) e)
        ],
      )
  | inr w ↦ ([], tt, omega arith, inr (final_newline c s (rw w at h)))
]

abbrev pub ValidBody : String → String → Type 0
ValidBody name body =
    StartsAlnum body
    × AllWord body
    × (str_len body ≤ 64)
    × ((name ≡ body) ⊎ (name ≡ body ⧺ newline))

pub matches_pattern_split :
    (name : String) → matches_pattern name ≡ true → (body : String) × ValidBody name body
unfolding matches_pattern ◌⧺◌ is_word
matches_pattern_split [] h = cc
matches_pattern_split (c ∷ s) h =
    let first : is_alnum (code c) ≡ true = ground arith in
    let (t, all, short, split) = matches_tail_split 63 s (ground arith) in
    (
      c ∷ t,
      (
        first,
        (rw first, all),
        omega (arith, short),
        elim split [
          | inl e ↦ inl (ap (λ (r : String). c ∷ r) e)
          | inr e ↦ inr (ap (λ (r : String). c ∷ r) e)
        ],
      ),
    )

-- An accepted name is a folder name in the sense of the docstring, perhaps with one newline behind
-- it; and it is not the reserved name.
pub is_valid_group_folder-shape :
    (name : String)
    → is_valid_group_folder name ≡ true
    → (body : String) × StartsAlnum body
      × AllWord body
      × (str_len body ≤ 64)
      × ((name ≡ body) ⊎ (name ≡ body ⧺ newline))
      × (name ≢ "global")
unfolding is_valid_group_folder
is_valid_group_folder-shape name h =
    let (body, parts) = matches_pattern_split name (ground arith) in
    let (starts, words, short, split) = parts in
    (body, starts, words, short, split, λ e. ground (arith, eq_iff name "global"))

rstrip-newline : (s : String) → rstrip (s ⧺ newline) ≡ rstrip s
unfolding rstrip ◌⧺◌
rstrip-newline [] = refl
rstrip-newline (c ∷ s) = rw (rstrip-newline s)

str_len-rstrip : (s : String) → str_len (rstrip s) ≤ str_len s
unfolding rstrip
str_len-rstrip [] = omega arith
str_len-rstrip (c ∷ s) = ground (arith, str_len-rstrip s)

-- A text that was stripped does not end in a newline.
pub strip-ne-newline : (s t : String) → strip s ≢ t ⧺ newline
unfolding strip
strip-ne-newline s t e =
    let same : strip s ≡ rstrip t = sym (rstrip_idem (lstrip s)) ∙ ap rstrip e ∙ rstrip-newline t in
    let longer : str_len (t ⧺ newline) ≡ str_len t + 1 = str_len-append t newline in
    absurd (omega (arith, str_len-rstrip t, longer, ap str_len (sym e ∙ same)))

-- A name that was stripped first, as the control plane does, is accepted only if it keeps every rule.
pub is_valid_group_folder_stripped :
    (text : String) → is_valid_group_folder (strip text) ≡ true → IsFolderName (strip text)
is_valid_group_folder_stripped text h =
    let (body, starts, words, short, split, free) = is_valid_group_folder-shape (strip text) h in
    elim split [
      | inl e ↦
          subst IsFolderName (sym e) (record {
            starts = starts;
            words = words;
            short = short;
            unreserved = λ g. free (e ∙ g);
          })
      | inr e ↦ absurd (strip-ne-newline text body e)
    ]

matches_tail-words :
    (n : ℕ) (t : String)
    → AllWord t
    → str_len t ≤ n
    → (matches_tail n t ≡ true) × (matches_tail n (t ⧺ newline) ≡ true)
unfolding matches_tail ◌⧺◌
matches_tail-words zero [] w h = (refl, refl)
matches_tail-words (suc n) [] w h = (refl, refl)
matches_tail-words zero (c ∷ t) w h = absurd (omega arith)
matches_tail-words (suc n) (c ∷ t) w h =
    let ih = matches_tail-words n t w.1 (omega arith) in (rw w.0 ih.0, rw w.0 ih.1)

-- A separator is no word character.
contains_code-words :
    (ch : ℕ) (t : String)
    → (ch ≡ 47) ⊎ (ch ≡ 92)
    → AllWord t
    → (contains_code ch t ≡ false) × (contains_code ch (t ⧺ newline) ≡ false)
unfolding contains_code ◌⧺◌ is_word
contains_code-words ch [] sep w = ground arith
contains_code-words ch (c ∷ t) sep w = ground (arith, contains_code-words ch t sep w.1)

newline-ne-global : (t : String) → ((t ⧺ newline) == "global") ≡ false
unfolding rstrip
newline-ne-global t = elim (Bool-cases ((t ⧺ newline) == "global")) [
  | inl same ↦
      let e : t ⧺ newline ≡ "global" = (eq_iff (t ⧺ newline) "global").0 same in
      let body : rstrip t ≡ "global" = sym (rstrip-newline t) ∙ ap rstrip e in
      absurd
        (omega (arith, str_len-rstrip t, ap str_len e, ap str_len body, str_len-append t newline))
  | inr other ↦ other
]

-- Every name that keeps the rules of the docstring is accepted; and so is the same name with a
-- newline behind it, which the rules forbid, even behind the reserved name.
pub is_valid_group_folder-newline :
    (name : String)
    → StartsAlnum name
    → AllWord name
    → str_len name ≤ 64
    → (is_valid_group_folder name ≡ not (name == "global"))
      × (is_valid_group_folder (name ⧺ newline) ≡ true)
unfolding is_valid_group_folder matches_pattern ◌⧺◌
is_valid_group_folder-newline [] starts w h = absurd starts
is_valid_group_folder-newline (c ∷ t) starts w h =
    let slash = contains_code-words 47 (c ∷ t) (inl refl) w in
    let backslash = contains_code-words 92 (c ∷ t) (inr refl) w in
    let tail = matches_tail-words 63 t w.1 (omega arith) in
    (
      ground (arith, slash.0, backslash.0, tail.0),
      ground (arith, slash.1, backslash.1, tail.1, newline-ne-global (c ∷ t)),
    )
