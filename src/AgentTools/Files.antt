-- ===== src/AgentTools/Files.antt =====
-- `read_file`, `write_file` and `edit_file` of agent_runner/tools.py: the answer, and the disk afterwards.
use secnano.Prelude.{String, if◌then◌else◌, ◌⧺◌, str_len, show}
use secnano.Effect.{Result, ok, raised}
use secnano.AgentTools.Search.{contains, replace_first}
use secnano.AgentTools.FileSystem.{FileSystem, Outcome, done, no_such_file, failed, safe_path}

abbrev pub tool_error : String → String
tool_error message = "[error] " ⧺ message

abbrev pub not_found : String → String
not_found path = tool_error ("File not found: " ⧺ path)

module _ {Disk : Type 0} (fs : FileSystem Disk) (repr : String → String) where
  abbrev pub read_answer : String → Outcome String → String
  read_answer path (done s) = s
  read_answer path (no_such_file e) = not_found path
  read_answer path (failed e) = tool_error e

  abbrev pub read_at : String → Disk → Result String → String
  read_at path d (raised e) = tool_error e
  read_at path d (ok safe) = read_answer path (fs.read_replacing safe d)

  unfoldable pub read_file : (path cwd : String) → Disk → String
  unfolding safe_path
  read_file path cwd d = read_at path d (safe_path fs repr path cwd d)

  abbrev pub write_answer : String → Outcome (Unit {0}) × Disk → String × Disk
  write_answer message (done u, d) = (message, d)
  write_answer message (no_such_file e, d) = (tool_error e, d)
  write_answer message (failed e, d) = (tool_error e, d)

  abbrev pub write_below : (path safe content : String) → Outcome (Unit {0}) × Disk → String × Disk
  write_below path safe content (done u, d) =
      write_answer ("Written " ⧺ show (str_len content) ⧺ " bytes to " ⧺ path)
        (fs.write_text safe content d)
  write_below path safe content (no_such_file e, d) = (tool_error e, d)
  write_below path safe content (failed e, d) = (tool_error e, d)

  abbrev pub write_at : (path content : String) → Disk → Result String → String × Disk
  write_at path content d (raised e) = (tool_error e, d)
  write_at path content d (ok safe) = write_below path safe content (fs.make_parent safe d)

  unfoldable pub write_file : (path content cwd : String) → Disk → String × Disk
  unfolding safe_path
  write_file path content cwd d = write_at path content d (safe_path fs repr path cwd d)

  abbrev pub edit_answer : String → Outcome (Unit {0}) × Disk → String × Disk
  edit_answer path (done u, d) = ("Replaced 1 occurrence in " ⧺ path, d)
  edit_answer path (no_such_file e, d) = (not_found path, d)
  edit_answer path (failed e, d) = (tool_error e, d)

  abbrev pub edit_read :
      (path safe old_str new_str : String) → Disk → Outcome String → String × Disk
  edit_read path safe old_str new_str d (no_such_file e) = (not_found path, d)
  edit_read path safe old_str new_str d (failed e) = (tool_error e, d)
  edit_read path safe old_str new_str d (done original) =
      if contains old_str original
      then edit_answer path (fs.write_text safe (replace_first old_str new_str original) d)
      else (tool_error ("String not found in " ⧺ path), d)

  abbrev pub edit_at : (path old_str new_str : String) → Disk → Result String → String × Disk
  edit_at path old_str new_str d (raised e) = (tool_error e, d)
  edit_at path old_str new_str d (ok safe) =
      edit_read path safe old_str new_str d (fs.read_text safe d)

  unfoldable pub edit_file : (path old_str new_str cwd : String) → Disk → String × Disk
  unfolding safe_path contains replace_first
  edit_file path old_str new_str cwd d =
      edit_at path old_str new_str d (safe_path fs repr path cwd d)
