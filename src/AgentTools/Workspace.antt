-- ===== src/AgentTools/Workspace.antt =====
-- Which files the tools of agent_runner/tools.py may change: none outside the workspace.
pub mod Writes
pub mod Calls
use Prim.Native.String.{[] as end}
use secnano.Prelude.{
  ℕ, strip, opt_or, String, ◌≡◌, ◌≢◌, refl, sym, ap, ◌∙◌, Bool, true, false, Option, none, some,
  List, ◌||◌, ◌==◌, if◌then◌else◌, ◌⧺◌, append_assoc_str, str_len, show, is_empty, arith,
  Bool-cases, inl, inr, eq_refl, eqb, is_some,
}
use secnano.Types.{Json}
use secnano.Effect.{Result, ok, raised}
use secnano.GroupFolder.{matches_pattern}
use secnano.AgentTools.Search.{after_text, starts_with, contains, replace_first}
use secnano.AgentTools.Replacing.{after_text-append}
use secnano.AgentTools.FileSystem.{
  FileSystem, IsFileSystem, Outcome, done, no_such_file, failed, is_inside, safe_path, safe_path_in,
  checked_path,
}
use secnano.AgentTools.Files.{
  write_file, write_at, write_below, write_answer, edit_file, edit_at, edit_read, edit_answer,
}
use secnano.AgentTools.Requests.{
  AgentEnv, execute_bash, register_group, request_group, write_task_request, write_request_in, made,
  written, renamed, request_answer, resolve_tasks_dir, final_path, temp_path, request_name,
  request_fields, mention_of,
}
use secnano.AgentTools.Dispatch.{
  ToolCall, ToolWorld, bash_call, register_call, read_call, write_call, edit_call, glob_call,
  grep_call, list_call, call_of, run_call, run_or_error, execute_tool,
}

-- Not a path of the workspace, nor of the directory for requests.
pub record IsOutside {Disk : Type 0} (w : ToolWorld Disk) (cwd q : String) (d : Disk) : Type 0 where
  pub workspace : (base : String) → w.fs.resolve cwd d ≡ ok base → is_inside base q ≡ false
  pub requests :
      (tasks_dir : String) → resolve_tasks_dir w.env ≡ ok tasks_dir → is_inside tasks_dir q ≡ false

module _ {Disk : Type 0} (fs : FileSystem Disk) (repr : String → String) where
  checked_path-is_inside :
      (base message safe : String) (r : Result String)
      → checked_path fs base r message ≡ ok safe
      → is_inside base safe ≡ true
  checked_path-is_inside base message safe (raised e) h = cc
  checked_path-is_inside base message safe (ok candidate) h =
      elim (Bool-cases (is_inside base candidate)) [
        | inl e ↦ let same : ok candidate ≡ ok safe = rw e at h in cc
        | inr e ↦ let other : raised message ≡ ok safe = rw e at h in absurd (cc)
      ]

  safe_path-is_inside :
      (path cwd safe : String) (d : Disk) (r : Result String)
      → safe_path_in fs repr cwd path d r ≡ ok safe
      → (base : String) × (r ≡ ok base) × (is_inside base safe ≡ true)
  safe_path-is_inside path cwd safe d (raised e) h = absurd (cc)
  safe_path-is_inside path cwd safe d (ok base) h =
      (base, refl, checked_path-is_inside base _ safe (fs.resolve_in base path d) h)

  -- What `_safe_path` allows is inside the workspace.
  pub safe_path-IsOutside :
      (path cwd safe q : String) (d : Disk)
      → ((base : String) → fs.resolve cwd d ≡ ok base → is_inside base q ≡ false)
      → safe_path fs repr path cwd d ≡ ok safe
      → q ≢ safe
  unfolding safe_path
  safe_path-IsOutside path cwd safe q d out h same =
      let (base, resolved, inside) = safe_path-is_inside path cwd safe d (fs.resolve cwd d) h in
      let outside = out base resolved in
      let both : is_inside base safe ≡ false = rw same at outside in cc

below-is_inside : (dir name : String) → is_inside dir (dir ⧺ "/" ⧺ name) ≡ true
unfolding is_inside
below-is_inside dir name =
    let path = dir ⧺ "/" ⧺ name in
    let found : after_text (dir ⧺ "/") path ≡ some name =
      rw (sym (append_assoc_str dir "/" name)) (after_text-append (dir ⧺ "/") name) in
    ground (arith, found)

pub outside-below : (dir name q : String) → is_inside dir q ≡ false → q ≢ dir ⧺ "/" ⧺ name
outside-below dir name q out same =
    let inside = below-is_inside dir name in
    let both : is_inside dir (dir ⧺ "/" ⧺ name) ≡ false = rw same at out in cc

module _ {Disk : Type 0} (w : ToolWorld Disk) (q : String) where
  -- The file `q` is the same on both disks.
  abbrev pub Same : Disk → Disk → Type 0
  Same d d' = w.fs.text_at q d' ≡ w.fs.text_at q d
