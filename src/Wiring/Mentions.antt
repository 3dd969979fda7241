-- ===== src/Wiring/Mentions.antt =====
-- What the trigger test of secnano/main.py accepts.
use Prim.Native.Char.{Char, code}
use text.Mathlib.TextEquality.{Char-path}
use secnano.Prelude.{
  String, ◌≡◌, refl, ap, ◌↔◌, ◌⊎◌, inl, inr, Bool, true, false, ◌&&◌, ◌||◌, if◌then◌else◌, eqb,
  is_empty, strip, ◌⧺◌, arith, Bool-cases,
}
use secnano.Types.{RegisteredGroup}
use secnano.Wiring.{
  Regex, is_boundary, matches_body, mentions, matches_group_trigger, is_legacy_jid_trigger, drop_at,
  needs_trigger,
}

module _ (re : Regex) where
  -- The same characters, one by one, as `(?i)` compares them.
  abbrev pub SameText : String → String → Type 0
  SameText String.[] String.[] = Unit
  SameText (String.◌∷◌ c body) (String.◌∷◌ d said) =
      (re.same_char (code c) (code d) ≡ true) × SameText body said
  SameText String.[] (String.◌∷◌ d said) = ⊥
  SameText (String.◌∷◌ c body) String.[] = ⊥

  -- Whether the text ends with a character of a word; `before` tells it of what stands before the text.
  abbrev pub ends_word : (before : Bool) → String → Bool
  ends_word before String.[] = before
  ends_word before (String.◌∷◌ c s) = ends_word (re.is_word_char (code c)) s

  -- The text begins with the body, and a word begins or ends behind it.
  pub record Follows (before : Bool) (body text : String) : Type 0 where
    pub said : String
    pub rest : String
    pub split : text ≡ said ⧺ rest
    pub same : SameText body said
    pub boundary : is_boundary re (ends_word before said) rest ≡ true

  matches_body-Follows :
      (before : Bool) (body text : String)
      → matches_body re before body text ≡ true
      → Follows before body text
  unfolding matches_body ◌⧺◌
  matches_body-Follows before String.[] text h = record {
    said = "";
    rest = text;
    split = refl;
    same = tt;
    boundary = h;
  }
  matches_body-Follows before (String.◌∷◌ c body) String.[] h = cc
  matches_body-Follows before (String.◌∷◌ c body) (String.◌∷◌ d text) h =
      let later = matches_body-Follows (re.is_word_char (code d)) body text (ground (arith, h)) in
      record {
        said = String.◌∷◌ d later.said;
        rest = later.rest;
        split = ap (λ (s : String). String.◌∷◌ d s) later.split;
        same = (ground (arith, h), later.same);
        boundary = later.boundary;
      }

  Follows-matches_body :
      (before : Bool) (body said rest : String)
      → SameText body said
      → is_boundary re (ends_word before said) rest ≡ true
      → matches_body re before body (said ⧺ rest) ≡ true
  unfolding matches_body ◌⧺◌
  Follows-matches_body before String.[] String.[] rest same boundary = boundary
  Follows-matches_body before String.[] (String.◌∷◌ d said) rest same boundary = absurd same
  Follows-matches_body before (String.◌∷◌ c body) String.[] rest same boundary = absurd same
  Follows-matches_body before (String.◌∷◌ c body) (String.◌∷◌ d said) rest same boundary =
      rw (same.0) (Follows-matches_body (re.is_word_char (code d)) body said rest same.1 boundary)

  abbrev at_sign : Char
  at_sign = "@"

  -- The text begins with the body, or with an `@` and the body.
  abbrev pub IsMention : (body text : String) → Type 0
  IsMention body text =
      ((behind : String) × (text ≡ "@" ⧺ behind) × Follows (re.is_word_char 64) body behind)
      ⊎ Follows false body text

  mentions-IsMention : (body text : String) → mentions re body text ≡ true → IsMention body text
  unfolding mentions ◌⧺◌
  mentions-IsMention body String.[] h = inr (matches_body-Follows false body "" h)
  mentions-IsMention body (String.◌∷◌ c text) h =
      elim (Bool-cases (eqb (code c) 64 && matches_body re (re.is_word_char (code c)) body text)) [
        | inl e ↦
            let same : code c ≡ 64 = ground (arith, e) in
            let found : matches_body re (re.is_word_char (code c)) body text ≡ true =
              ground (arith, e) in
            inl (
              text,
              ap (λ (x : Char). String.◌∷◌ x text) (Char-path c at_sign same),
              matches_body-Follows (re.is_word_char 64) body text (rw same at found),
            )
        | inr e ↦ inr (matches_body-Follows false body (String.◌∷◌ c text) (ground (arith, h, e)))
      ]

  mentions_body :
      (body text : String) → matches_body re false body text ≡ true → mentions re body text ≡ true
  unfolding mentions
  mentions_body body String.[] h = h
  mentions_body body (String.◌∷◌ c text) h = ground (arith, h)

  found_text :
      (before : Bool) (body text : String)
      → Follows before body text
      → matches_body re before body text ≡ true
  found_text before body text follows =
      rw follows.split
        (Follows-matches_body before body follows.said follows.rest follows.same follows.boundary)

  IsMention-mentions : (body text : String) → IsMention body text → mentions re body text ≡ true
  unfolding mentions ◌⧺◌
  IsMention-mentions body text (inl (behind, e, follows)) =
      let found = found_text (re.is_word_char 64) body behind follows in rw (e, found) refl
  IsMention-mentions body text (inr follows) =
      mentions_body body text (found_text false body text follows)

  -- The text that has to be mentioned: the group's trigger without its `@`, or the assistant's name
  -- where the group has none or an old one.
  abbrev pub trigger_body : (assistant_name : String) → RegisteredGroup → String
  trigger_body assistant_name group =
      if is_empty (strip group.trigger) || is_legacy_jid_trigger (strip group.trigger) group.jid
      then assistant_name
      else drop_at re (strip group.trigger)

  trigger_body-mentions :
      (assistant_name : String) (group : RegisteredGroup) (content : String)
      → matches_group_trigger re assistant_name group content ≡ (
          if needs_trigger re group.requires_trigger
          then mentions re (trigger_body assistant_name group) (strip content)
          else true)
  unfolding matches_group_trigger
  trigger_body-mentions assistant_name group content =
      elim (Bool-cases
        (is_empty (strip group.trigger) || is_legacy_jid_trigger (strip group.trigger) group.jid)) [
          | inl e ↦ rw e refl
          | inr e ↦ rw e refl
        ]

  -- A message triggers a group exactly if the group needs no trigger, or the stripped message begins,
  -- case aside, with the body of the group's trigger or with `@` and that body, and a word begins
  -- or ends behind it. The body is what `trigger_body` gives: the stripped trigger without its `@`, or
  -- the assistant's name where the trigger is empty or an old jid trigger.
  pub matches_group_trigger-IsMention :
      (assistant_name : String) (group : RegisteredGroup) (content : String)
      → (matches_group_trigger re assistant_name group content ≡ true) ↔ (
          (needs_trigger re group.requires_trigger ≡ false)
          ⊎ IsMention (trigger_body assistant_name group) (strip content))
  matches_group_trigger-IsMention assistant_name group content =
      let same = trigger_body-mentions assistant_name group content in
      let needs = needs_trigger re group.requires_trigger in
      (
        λ h. elim (Bool-cases needs) [
          | inl e ↦
              let found : mentions re (trigger_body assistant_name group) (strip content) ≡ true =
                ground (arith, h, e, same) in
              inr (mentions-IsMention (trigger_body assistant_name group) (strip content) found)
          | inr e ↦ inl e
        ],
        λ h. elim h [
          | inl e ↦ ground (arith, e, same)
          | inr mention ↦
              let found =
                IsMention-mentions (trigger_body assistant_name group) (strip content) mention in
              ground (arith, found, same)
        ],
      )
