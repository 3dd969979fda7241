-- ===== src/GroupFolder/Stripped.antt =====
-- The regular expression of secnano/group_folder.py and agent_runner/tools.py on stripped names.
use mathlib.Core.Path.{subst}
use secnano.Prelude.{String, ◌≡◌, sym, inl, inr, true, not, ◌==◌, strip}
use secnano.GroupFolder.{matches_pattern, is_valid_group_folder}
use secnano.GroupFolder.Safety.{
  matches_pattern_split, strip-ne-newline, is_valid_group_folder-newline,
}

-- On a stripped name the regular expression alone decides, but for the reserved name.
pub is_valid_group_folder-pattern :
    (text : String)
    → matches_pattern (strip text) ≡ true
    → is_valid_group_folder (strip text) ≡ not (strip text == "global")
is_valid_group_folder-pattern text h =
    let (body, parts) = matches_pattern_split (strip text) h in
    let (starts, words, short, split) = parts in
    elim split [
      | inl e ↦
          subst (λ (n : String). is_valid_group_folder n ≡ not (n == "global")) (sym e)
            (is_valid_group_folder-newline body starts words short).0
      | inr e ↦ absurd (strip-ne-newline text body e)
    ]
