-- ===== src/Router/Escaping.antt =====
-- What secnano/router.py lets into the prompt, and the length of a preview.
use Prim.Native.Char.{Char, code}
use secnano.Prelude.{
  ℕ, zero, suc, ◌-◌, ◌≤◌, ◌<◌, String, ◌≡◌, refl, ◌⊎◌, inl, inr, Bool, true, false, ◌||◌, some,
  arith, ◌∙◌, eqb, if◌then◌else◌, ◌⧺◌, str_len, str_len-append,
}
use secnano.GroupFolder.{contains_code}
use secnano.Router.{escape_code, escape_xml, str_take, truncate, compact_from}

contains_code-append :
    (ch : ℕ) (s t : String) → contains_code ch (s ⧺ t) ≡ (contains_code ch s || contains_code ch t)
unfolding contains_code ◌⧺◌
contains_code-append ch String.[] t = refl
contains_code-append ch (String.◌∷◌ c s) t = ground (arith, contains_code-append ch s t)

-- The characters that end an attribute or open a tag: `<`, `>`, `"` and `'`.
abbrev pub IsMarkup : ℕ → Type 0
IsMarkup ch = (ch ≡ 60) ⊎ (ch ≡ 62) ⊎ (ch ≡ 34) ⊎ (ch ≡ 39)

contains_code-if :
    (ch : ℕ) (b : Bool) (s t : String)
    → contains_code ch s ≡ false
    → (b ≡ false → contains_code ch t ≡ false)
    → contains_code ch (if b then s else t) ≡ false
contains_code-if ch true s t safe otherwise = safe
contains_code-if ch false s t safe otherwise = otherwise refl

not_alone :
    (ch : ℕ) (c : Char)
    → IsMarkup ch
    → eqb (code c) 60 ≡ false
    → eqb (code c) 62 ≡ false
    → eqb (code c) 34 ≡ false
    → eqb (code c) 39 ≡ false
    → contains_code ch (String.◌∷◌ c "") ≡ false
unfolding contains_code
not_alone ch c (inl e) lt gt dq sq = ground arith
not_alone ch c (inr (inl e)) lt gt dq sq = ground arith
not_alone ch c (inr (inr (inl e))) lt gt dq sq = ground arith
not_alone ch c (inr (inr (inr e))) lt gt dq sq = ground arith

entity_safe :
    (ch : ℕ)
    → IsMarkup ch
    → (contains_code ch "&amp;" ≡ false)
      × (contains_code ch "&lt;" ≡ false)
      × (contains_code ch "&gt;" ≡ false)
      × (contains_code ch "&quot;" ≡ false)
      × (contains_code ch "&#x27;" ≡ false)
unfolding contains_code
entity_safe ch (inl e) = rw e (refl, refl, refl, refl, refl)
entity_safe ch (inr (inl e)) = rw e (refl, refl, refl, refl, refl)
entity_safe ch (inr (inr (inl e))) = rw e (refl, refl, refl, refl, refl)
entity_safe ch (inr (inr (inr e))) = rw e (refl, refl, refl, refl, refl)

escape_code_safe :
    (ch : ℕ) (c : Char)
    → IsMarkup ch
    → contains_code ch (escape_code (code c) (String.◌∷◌ c "")) ≡ false
escape_code_safe ch c m =
    let (amp, lt, gt, quot, apos) = entity_safe ch m in
    contains_code-if ch (eqb (code c) 38) "&amp;" _ amp λ _.
      contains_code-if ch (eqb (code c) 60) "&lt;" _ lt λ not_lt.
        contains_code-if ch (eqb (code c) 62) "&gt;" _ gt λ not_gt.
          contains_code-if ch (eqb (code c) 34) "&quot;" _ quot λ not_quot.
            contains_code-if ch (eqb (code c) 39) "&#x27;" _ apos
              λ not_apos. not_alone ch c m not_lt not_gt not_quot not_apos

-- Escaped text holds none of the four markup characters, so no message can close its element or
-- open another one.
pub escape_xml_safe : (ch : ℕ) (s : String) → IsMarkup ch → contains_code ch (escape_xml s) ≡ false
unfolding contains_code escape_xml
escape_xml_safe ch String.[] m = refl
escape_xml_safe ch (String.◌∷◌ c s) m =
    contains_code-append ch (escape_code (code c) (String.◌∷◌ c "")) (escape_xml s)
    ∙ rw (escape_code_safe ch c m) (escape_xml_safe ch s m)

str_len-take : (n : ℕ) (s : String) → str_len (str_take n s) ≤ n
unfolding str_take
str_len-take zero s = omega arith
str_len-take (suc n) String.[] = omega arith
str_len-take (suc n) (String.◌∷◌ c s) = omega (arith, str_len-take n s)

-- A preview is never longer than its limit, if the limit is not 0.
pub truncate-le :
    (text preview : String) (limit : ℕ)
    → 0 < limit
    → truncate (some text) limit ≡ some preview
    → str_len preview ≤ limit
unfolding truncate
truncate-le text preview limit h e = ground (
  arith,
  str_len-take (limit - 1) (compact_from false false text),
  str_len-append (str_take (limit - 1) (compact_from false false text)) "…",
)
