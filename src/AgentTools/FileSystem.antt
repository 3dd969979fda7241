-- ===== src/AgentTools/FileSystem.antt =====
-- What the tools of agent_runner/tools.py use of pathlib and subprocess, as an interface, with the
-- behaviour of a file system that the tools rely on; and `_safe_path`.
use secnano.Prelude.{ℕ, String, ◌≡◌, ◌≢◌, Bool, true, Option, List, ◌==◌, if◌then◌else◌, ◌⧺◌}
use secnano.Effect.{Result, ok, raised}
use secnano.AgentTools.Search.{after_text, starts_with}

-- How a call of pathlib ends, with the text of its exception: `no_such_file` is a `FileNotFoundError`,
-- `failed` is any other.
pub data Outcome (A : Type 0) : Type 0 where
  done : A → Outcome A
  no_such_file : String → Outcome A
  failed : String → Outcome A

-- An entry of a directory.
pub record Entry : Type 0 where
  pub name : String
  pub entry_is_file : Bool
  pub entry_is_dir : Bool

-- How `subprocess.run` ends. The exit code is `none` for 0, and else its decimal text.
pub data Shell : Type 0 where
  finished : (stdout stderr : String) → (exit_code : Option String) → Shell
  timed_out : Shell
  shell_failed : String → Shell

-- A path is the text that pathlib prints for it.
pub record FileSystem (Disk : Type 0) : Type 0 where
  -- `Path(dir).resolve()` and `(base / requested).resolve()`
  pub resolve : String → Disk → Result String
  pub resolve_in : String → String → Disk → Result String
  -- `read_text` with `errors="replace"`, and without
  pub read_replacing : String → Disk → Outcome String
  pub read_text : String → Disk → Outcome String
  pub write_text : String → String → Disk → Outcome (Unit {0}) × Disk
  -- `path.parent.mkdir(parents=True, exist_ok=True)` and `path.mkdir(…)` with the same arguments
  pub make_parent : String → Disk → Outcome (Unit {0}) × Disk
  pub make_directory : String → Disk → Outcome (Unit {0}) × Disk
  pub rename : String → String → Disk → Outcome (Unit {0}) × Disk
  pub is_file : String → Disk → Bool
  pub is_dir : String → Disk → Bool
  -- `sorted(base.glob(pattern))` and `sorted(root.rglob("*"))`
  pub glob : String → String → Disk → Result (List String)
  pub rglob : String → Disk → Result (List String)
  -- `str(path.relative_to(base))`
  pub relative_to : String → String → Result String
  -- `target.iterdir()`, in any order
  pub iterdir : String → Disk → Result (List Entry)
  -- `re.compile(pattern, flags).search`; the test is whether a line has a match.
  pub compile : String → Bool → Result (String → Bool)
  pub run_shell : String → ℕ → Disk → Shell × Disk
  -- What the file of a path holds, `none` where no file has that name.
  pub text_at : String → Disk → Option String

-- Reading leaves a disk alone by its type. What is written under one name is not seen under
-- another: no file in question has two names.
pub record IsFileSystem {Disk : Type 0} (fs : FileSystem Disk) : Type 0 where
  pub write_text-others :
      (p q s : String) (d : Disk) → q ≢ p → fs.text_at q (fs.write_text p s d).1 ≡ fs.text_at q d
  pub make_parent-others :
      (p q : String) (d : Disk) → fs.text_at q (fs.make_parent p d).1 ≡ fs.text_at q d
  pub make_directory-others :
      (p q : String) (d : Disk) → fs.text_at q (fs.make_directory p d).1 ≡ fs.text_at q d
  pub rename-others :
      (p r q : String) (d : Disk)
      → q ≢ p
      → q ≢ r
      → fs.text_at q (fs.rename p r d).1 ≡ fs.text_at q d

-- The path is the directory or below it.
unfoldable pub is_inside : String → String → Bool
unfolding after_text ◌⧺◌
is_inside base path = if path == base then true else starts_with (base ⧺ "/") path

module _ {Disk : Type 0} (fs : FileSystem Disk) where
  abbrev pub checked_path : String → Result String → String → Result String
  checked_path base (raised e) message = raised e
  checked_path base (ok candidate) message =
      if is_inside base candidate then ok candidate else raised message

  -- `_safe_path`, once its base is resolved; and `_safe_path`. `repr` is Python's.
  abbrev pub safe_path_in :
      (repr : String → String) → (cwd requested : String) → Disk → Result String → Result String
  safe_path_in repr cwd requested d (raised e) = raised e
  safe_path_in repr cwd requested d (ok base) =
      checked_path base (fs.resolve_in base requested d)
        ("Path traversal denied: " ⧺ repr requested ⧺ " escapes workspace " ⧺ repr cwd)

  unfoldable pub safe_path :
      (repr : String → String) → (requested cwd : String) → Disk → Result String
  unfolding after_text ◌⧺◌
  safe_path repr requested cwd d = safe_path_in repr cwd requested d (fs.resolve cwd d)
