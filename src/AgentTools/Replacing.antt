-- ===== src/AgentTools/Replacing.antt =====
-- `replace_first` against what `s.replace(old, new, 1)` and `old in s` promise.
use Prim.Native.Char.{Char, code}
use mathlib.Core.Path.{ap₂}
use text.Mathlib.TextEquality.{Char-path}
use secnano.Prelude.{
  suc, ◌≤◌, String, ◌≡◌, ◌≢◌, refl, ap, inl, inr, true, false, Option, none, some, arith, eqb,
  is_some, str_len, ◌⧺◌, str_len-append, Bool-cases, Option-cases,
}
use secnano.AgentTools.Search.{after_text, contains, replace_first}

-- Where the text first holds `old`.
pub record FirstAt (old s : String) : Type 0 where
  pub before : String
  pub rest : String
  pub split : s ≡ before ⧺ old ⧺ rest
  pub first : (b r : String) → s ≡ b ⧺ old ⧺ r → str_len before ≤ str_len b

after_text_sound : (p s t : String) → after_text p s ≡ some t → s ≡ p ⧺ t
unfolding after_text ◌⧺◌
after_text_sound String.[] s t h = ground (arith, h)
after_text_sound (String.◌∷◌ c p) String.[] t h = cc
after_text_sound (String.◌∷◌ c p) (String.◌∷◌ d s) t h = elim (Bool-cases (eqb (code c) (code d))) [
  | inl e ↦
      let same : code d ≡ code c = ground arith in
      ap₂ (λ (x : Char) (r : String). String.◌∷◌ x r) (Char-path d c same)
        (after_text_sound p s t (rw e at h))
  | inr e ↦ cc
]

pub after_text-append : (p t : String) → after_text p (p ⧺ t) ≡ some t
unfolding after_text ◌⧺◌
after_text-append String.[] t = refl
after_text-append (String.◌∷◌ c p) t =
    let e : eqb (code c) (code c) ≡ true = ground arith in rw e (after_text-append p t)

text_tail : String → String
text_tail String.[] = ""
text_tail (String.◌∷◌ c s) = s

-- A text that does not begin with `old` holds it only further on.
later :
    (old s : String) (c : Char) (b r : String)
    → after_text old (String.◌∷◌ c s) ≡ none
    → (String.◌∷◌ c s) ≡ b ⧺ old ⧺ r
    → (b' : String) × (str_len b ≡ suc (str_len b')) × (s ≡ b' ⧺ old ⧺ r)
unfolding ◌⧺◌ text_tail
later old s c String.[] r h e =
    let found = after_text-append old r in
    let other : after_text old (old ⧺ r) ≡ none = rw e at h in absurd (cc)
later old s c (String.◌∷◌ d b) r h e = (b, refl, ap text_tail e)

none-is_some : {A : Type 0} (o : Option A) → is_some o ≡ false → o ≡ none
none-is_some none h = refl
none-is_some (some a) h = cc

pub contains-nowhere : (old s b r : String) → contains old s ≡ false → s ≢ b ⧺ old ⧺ r
unfolding contains ◌⧺◌
contains-nowhere String.[] String.[] b r h e = cc
contains-nowhere (String.◌∷◌ x old) String.[] b r h e =
    omega (arith, ap str_len e, str_len-append b ((String.◌∷◌ x old) ⧺ r))
contains-nowhere old (String.◌∷◌ c s) b r h e =
    let here : after_text old (String.◌∷◌ c s) ≡ none = none-is_some _ (ground (arith, h)) in
    let (b', size, split) = later old s c b r here e in
    contains-nowhere old s b' r (ground (arith, h)) split

pub replace_first-FirstAt :
    (old new s : String)
    → contains old s ≡ true
    → (f : FirstAt old s) × (replace_first old new s ≡ f.before ⧺ new ⧺ f.rest)
unfolding contains replace_first ◌⧺◌
replace_first-FirstAt String.[] new String.[] h =
    (record { before = ""; rest = ""; split = refl; first = λ b r e. omega arith }, refl)
replace_first-FirstAt (String.◌∷◌ x old) new String.[] h = cc
replace_first-FirstAt old new (String.◌∷◌ c s) h =
    elim (Option-cases (after_text old (String.◌∷◌ c s))) [
      | inl none_here ↦
          let (f, eq) = replace_first-FirstAt old new s (simp none_here at h) in
          (
            record {
              before = String.◌∷◌ c f.before;
              rest = f.rest;
              split = ap (λ (r : String). String.◌∷◌ c r) f.split;
              first = λ b r e.
                  let (b', size, split) = later old s c b r none_here e in
                  omega (arith, size, f.first b' r split);
            },
            rw none_here (ap (λ (r : String). String.◌∷◌ c r) eq),
          )
      | inr (t, found) ↦ (
        record {
          before = "";
          rest = t;
          split = after_text_sound old (String.◌∷◌ c s) t found;
          first = λ b r e. omega arith;
        },
        rw found refl,
      )
    ]
