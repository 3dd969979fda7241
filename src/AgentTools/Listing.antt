-- ===== src/AgentTools/Listing.antt =====
-- `glob_files`, `grep_files` and `list_directory` of agent_runner/tools.py.
use secnano.Prelude.{
  ℕ, ◌+◌, String, Bool, not, ◌||◌, Option, none, some, List, [], ◌∷◌, ◌++◌, map, if◌then◌else◌, leb,
  length, ◌⧺◌, show, opt_or, opt_true,
}
use secnano.Effect.{Result, ok, raised, and_then}
use secnano.Db.Sort.{sort, ascending}
use secnano.AgentTools.Search.{join_lines, splitlines}
use secnano.AgentTools.FileSystem.{
  FileSystem, Entry, Outcome, done, no_such_file, failed, safe_path,
}
use secnano.AgentTools.Files.{tool_error}

-- `"\n".join(lines)`, or what stands for no lines.
abbrev pub lines_or : String → List String → String
lines_or empty [] = empty
lines_or empty (line ∷ lines) = join_lines (line ∷ lines)

abbrev pub answer_lines : String → Result (List String) → String
answer_lines empty (raised e) = tool_error e
answer_lines empty (ok lines) = lines_or empty lines

-- `for` over a generator or a list that may raise: the first error ends it.
unfoldable pub all_ok : List (Result String) → Result (List String)
all_ok [] = ok []
all_ok (raised e ∷ rest) = raised e
all_ok (ok s ∷ rest) = elim (all_ok rest) [ ok l ↦ ok (s ∷ l) | raised e ↦ raised e ]

-- `{rel}:{lineno}: {line}`
abbrev pub match_line : String → ℕ → String → String
match_line rel lineno line = rel ⧺ ":" ⧺ show lineno ⧺ ": " ⧺ line

-- The loop over the lines of `_grep_file`: at 200 results it raises `StopIteration`, whose text is
-- empty, and the list of the results is lost to the caller.
unfoldable pub grep_lines :
    (String → Bool) → String → ℕ → List String → List String → Result (List String)
unfolding show ◌⧺◌
grep_lines search rel lineno [] results = ok results
grep_lines search rel lineno (line ∷ lines) results =
    let found = results ++ match_line rel lineno line ∷ [] in
    let next = grep_lines search rel (lineno + 1) lines (if search line then found else results) in
    if search line then (if leb 200 (length found) then raised "" else next) else next

module _ {Disk : Type 0} (fs : FileSystem Disk) (repr : String → String) where
  abbrev glob_in : String → Disk → Result String → Result (List String)
  glob_in pattern d (raised e) = raised e
  glob_in pattern d (ok base) = elim (fs.glob base pattern d) [
    | raised e ↦ raised e
    | ok matches ↦ all_ok (map (fs.relative_to base) matches)
  ]

  unfoldable pub glob_files : (pattern cwd : String) → Disk → String
  unfolding all_ok join_lines ◌⧺◌
  glob_files pattern cwd d = answer_lines "(no matches)" (glob_in pattern d (fs.resolve cwd d))

  -- `_grep_file`; a file that cannot be read is skipped. With `errors="replace"` a read of what
  -- `is_file` calls a file fails with an OSError only, and the code catches just that.
  abbrev pub grep_text :
      (String → Bool) → String → String → List String → Outcome String → Result (List String)
  grep_text search base file results (done s) = elim (fs.relative_to base file) [
    | raised e ↦ raised e
    | ok rel ↦ grep_lines search rel 1 (splitlines s) results
  ]
  grep_text search base file results (no_such_file e) = ok results
  grep_text search base file results (failed e) = ok results

  unfoldable pub grep_file :
      (String → Bool) → String → String → Disk → List String → Result (List String)
  unfolding grep_lines splitlines
  grep_file search base file d results =
      grep_text search base file results (fs.read_replacing file d)

  unfoldable pub grep_all :
      (String → Bool) → String → List String → Disk → List String → Result (List String)
  unfolding grep_file
  grep_all search base [] d results = ok results
  grep_all search base (file ∷ files) d results =
      and_then (if fs.is_file file d then grep_file search base file d results else ok results)
        (grep_all search base files d)

  -- `_safe_path(path, cwd) if path else base`
  abbrev pub root_of : Option String → String → String → Disk → Result String
  root_of path cwd base d =
      if opt_true path then safe_path fs repr (opt_or path "") cwd d else ok base

  abbrev pub grep_root : (String → Bool) → String → String → Disk → Result (List String)
  grep_root search base root d =
      if fs.is_file root d then grep_file search base root d [] else elim (fs.rglob root d) [
        | raised e ↦ raised e
        | ok files ↦ grep_all search base files d []
      ]

  abbrev pub invalid_regex : Result (String → Bool) → Result (String → Bool)
  invalid_regex (ok search) = ok search
  invalid_regex (raised e) = raised ("Invalid regex: " ⧺ e)

  abbrev pub grep_compiled :
      String → Disk → Result (String → Bool) → Result String → Result (List String)
  grep_compiled base d search (raised e) = raised e
  grep_compiled base d (raised e) (ok root) = raised e
  grep_compiled base d (ok search) (ok root) = grep_root search base root d

  abbrev pub grep_base :
      String → Option String → String → Bool → Disk → Result String → Result (List String)
  grep_base pattern path cwd case_insensitive d (raised e) = raised e
  grep_base pattern path cwd case_insensitive d (ok base) =
      grep_compiled base d (invalid_regex (fs.compile pattern case_insensitive))
        (root_of path cwd base d)

  unfoldable pub grep_files :
      (pattern : String)
      → (path : Option String) → (cwd : String) → (case_insensitive : Bool) → Disk
      → String
  unfolding join_lines ◌⧺◌
  grep_files pattern path cwd case_insensitive d =
      answer_lines "(no matches)" (grep_base pattern path cwd case_insensitive d (fs.resolve cwd d))

  abbrev pub entry_line : Entry → String
  entry_line e = e.name ⧺ (if e.entry_is_dir then "/" else "")

  -- The order of the key `(p.is_file(), p.name)`: a sort by name, then a stable sort by kind.
  abbrev pub sorted_entries : List Entry → List Entry
  sorted_entries entries =
      sort (λ (a b : Entry). not a.entry_is_file || b.entry_is_file)
        (sort (ascending (λ (e : Entry). e.name)) entries)

  abbrev list_target : Option String → Disk → Result String → Result (List String)
  list_target path d (raised e) = raised e
  list_target path d (ok target) =
      if fs.is_dir target d
      then elim (fs.iterdir target d) [
        | raised e ↦ raised e
        | ok entries ↦ ok (map entry_line (sorted_entries entries))
      ]
      else raised ("Not a directory: " ⧺ elim path [ none ↦ "None" | some p ↦ p ])

  abbrev list_base : Option String → String → Disk → Result String → Result (List String)
  list_base path cwd d (raised e) = raised e
  list_base path cwd d (ok base) = list_target path d (root_of path cwd base d)

  unfoldable pub list_directory : (path : Option String) → (cwd : String) → Disk → String
  unfolding join_lines ◌⧺◌
  list_directory path cwd d =
      answer_lines "(empty directory)" (list_base path cwd d (fs.resolve cwd d))
