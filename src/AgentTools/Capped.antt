-- ===== src/AgentTools/Capped.antt =====
-- What `grep_files` of agent_runner/tools.py answers, and what becomes of its cap on the output.
use mathlib.Core.List.{append_assoc, append-nil}
use secnano.Prelude.{
  ℕ, ◌+◌, String, ◌≡◌, refl, sym, ap, ◌∙◌, Bool, true, false, Option, List, [], ◌∷◌, ◌++◌, arith,
  if◌then◌else◌, leb, length, length-append, Bool-cases, inl, inr, ◌⧺◌,
}
use secnano.Effect.{Result, ok, raised, and_then}
use secnano.AgentTools.Search.{splitlines}
use secnano.AgentTools.FileSystem.{FileSystem, Outcome, done, no_such_file, failed}
use secnano.AgentTools.Listing.{
  match_line, grep_lines, grep_file, grep_text, grep_all, grep_files, root_of, lines_or,
  answer_lines,
}

-- The lines with a match, from the line number on.
abbrev pub line_matches : (String → Bool) → String → ℕ → List String → List String
line_matches search rel lineno [] = []
line_matches search rel lineno (line ∷ lines) =
    let rest = line_matches search rel (lineno + 1) lines in
    if search line then match_line rel lineno line ∷ rest else rest

abbrev pub text_matches : (String → Bool) → String → Outcome String → List String
text_matches search rel (done s) = line_matches search rel 1 (splitlines s)
text_matches search rel (no_such_file e) = []
text_matches search rel (failed e) = []

-- At 200 results the search raises, with an empty text, and has no results any more.
abbrev pub capped : List String → Result (List String)
capped results = if leb 200 (length results) then raised "" else ok results

capped-long : (l : List String) → leb 200 (length l) ≡ true → capped l ≡ raised ""
capped-long l h = rw h refl

capped-short : (l : List String) → leb 200 (length l) ≡ false → capped l ≡ ok l
capped-short l h = rw h refl

long-append : (l m : List String) → leb 200 (length l) ≡ true → leb 200 (length (l ++ m)) ≡ true
long-append l m h = ground (arith, h, length-append l m)

grep_lines-capped :
    (search : String → Bool) (rel : String) (lineno : ℕ) (lines results : List String)
    → leb 200 (length results) ≡ false
    → grep_lines search rel lineno lines results
      ≡ capped (results ++ line_matches search rel lineno lines)
unfolding grep_lines
grep_lines-capped search rel lineno [] results h =
    sym (ap capped (append-nil results) ∙ capped-short results h)
grep_lines-capped search rel lineno (line ∷ lines) results h = elim (Bool-cases (search line)) [
  | inr e ↦ rw e (grep_lines-capped search rel (lineno + 1) lines results h)
  | inl e ↦
      let m = match_line rel lineno line in
      let found = results ++ m ∷ [] in
      let rest = line_matches search rel (lineno + 1) lines in
      let all = append_assoc results (m ∷ []) rest in
      elim (Bool-cases (leb 200 (length found))) [
        | inl full ↦
            rw (e, full)
              (sym
                (ap capped (sym all) ∙ capped-long (found ++ rest) (long-append found rest full)))
        | inr more ↦
            rw (e, more)
              (grep_lines-capped search rel (lineno + 1) lines found more ∙ ap capped all)
      ]
]

answer_lines-capped :
    (empty : String) (l : List String)
    → answer_lines empty (capped l) ≡ (if leb 200 (length l) then "[error] " else lines_or empty l)
unfolding ◌⧺◌
answer_lines-capped empty l = elim (Bool-cases (leb 200 (length l))) [
  | inl full ↦ rw full refl
  | inr more ↦ rw more refl
]

-- A search that goes on behind a capped one.
and_then-capped :
    (found rest : List String) (next : List String → Result (List String))
    → (leb 200 (length found) ≡ false → next found ≡ capped (found ++ rest))
    → and_then (capped found) next ≡ capped (found ++ rest)
and_then-capped found rest next h = elim (Bool-cases (leb 200 (length found))) [
  | inl full ↦
      ap (λ r. and_then r next) (capped-long found full)
      ∙ sym (capped-long (found ++ rest) (long-append found rest full))
  | inr more ↦ ap (λ r. and_then r next) (capped-short found more) ∙ h more
]

module _ {Disk : Type 0} (fs : FileSystem Disk) (repr : String → String) (base : String)
    (rel : String → String) (search : String → Bool) where
  -- Each path is below the base, and `rel` is the way there.
  abbrev pub AllBelow : List String → Type 0
  AllBelow [] = Unit
  AllBelow (file ∷ files) = (fs.relative_to base file ≡ ok (rel file)) × AllBelow files

  -- Every line with a match in the files that can be read, in the order of the files.
  abbrev pub all_matches : List String → Disk → List String
  all_matches [] d = []
  all_matches (file ∷ files) d =
      (if fs.is_file file d then text_matches search (rel file) (fs.read_replacing file d) else [])
      ++ all_matches files d

  grep_text-capped :
      (file : String) (results : List String) (o : Outcome String)
      → fs.relative_to base file ≡ ok (rel file)
      → leb 200 (length results) ≡ false
      → grep_text fs repr search base file results o
        ≡ capped (results ++ text_matches search (rel file) o)
  grep_text-capped file results (done s) below h =
      rw (below, grep_text) (grep_lines-capped search (rel file) 1 (splitlines s) results h)
  grep_text-capped file results (no_such_file e) below h =
      sym (ap capped (append-nil results) ∙ capped-short results h)
  grep_text-capped file results (failed e) below h =
      sym (ap capped (append-nil results) ∙ capped-short results h)

  grep_file-capped :
      (file : String) (d : Disk) (results : List String)
      → fs.relative_to base file ≡ ok (rel file)
      → leb 200 (length results) ≡ false
      → grep_file fs repr search base file d results
        ≡ capped (results ++ text_matches search (rel file) (fs.read_replacing file d))
  unfolding grep_file
  grep_file-capped file d results below h =
      grep_text-capped file results (fs.read_replacing file d) below h

  grep_all-capped :
      (files : List String) (d : Disk) (results : List String)
      → AllBelow files
      → leb 200 (length results) ≡ false
      → grep_all fs repr search base files d results ≡ capped (results ++ all_matches files d)
  unfolding grep_all
  grep_all-capped [] d results below h =
      sym (ap capped (append-nil results) ∙ capped-short results h)
  grep_all-capped (file ∷ files) d results below h = elim (Bool-cases (fs.is_file file d)) [
    | inr e ↦ rw e (grep_all-capped files d results below.1 h)
    | inl e ↦
        let ms = text_matches search (rel file) (fs.read_replacing file d) in
        rw e (
          ap (λ (r : Result (List String)). and_then r (grep_all fs repr search base files d))
            (grep_file-capped file d results below.0 h)
          ∙ and_then-capped (results ++ ms) (all_matches files d)
              (grep_all fs repr search base files d)
              (grep_all-capped files d (results ++ ms) below.1)
          ∙ ap capped (append_assoc results ms (all_matches files d)))
  ]

  -- In a directory inside the workspace whose files lie below the base, the answer is that of the
  -- lines with a match in the files that can be read, in the order of the files; but with 200 such
  -- lines or more it is only `[error] `, with none of them.
  pub grep_files-capped :
      (pattern cwd : String) (path : Option String) (case_insensitive : Bool) (root : String)
      (files : List String) (d : Disk)
      → fs.resolve cwd d ≡ ok base
      → root_of fs repr path cwd base d ≡ ok root
      → fs.compile pattern case_insensitive ≡ ok search
      → fs.is_file root d ≡ false
      → fs.rglob root d ≡ ok files
      → AllBelow files
      → grep_files fs repr pattern path cwd case_insensitive d ≡ (
          if leb 200 (length (all_matches files d))
          then "[error] "
          else lines_or "(no matches)" (all_matches files d))
  unfolding grep_files
  grep_files-capped pattern cwd path case_insensitive root files d resolved allowed compiled
        directory found below =
      rw (resolved, compiled, allowed, directory, found)
        (ap (answer_lines "(no matches)") (grep_all-capped files d [] below refl)
          ∙ answer_lines-capped "(no matches)" (all_matches files d))
