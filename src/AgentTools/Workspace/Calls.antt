-- ===== src/AgentTools/Workspace/Calls.antt =====
-- Every tool of agent_runner/tools.py but `bash` keeps the files outside the workspace.
use secnano.Prelude.{
  strip, opt_or, String, ◌≡◌, refl, ◌∙◌, Bool, true, false, Option, List, ◌||◌, ◌==◌, ◌⧺◌, is_empty,
  arith, Bool-cases, inl, inr,
}
use secnano.Types.{Json}
use secnano.Effect.{Result, ok, raised}
use secnano.GroupFolder.{matches_pattern}
use secnano.AgentTools.FileSystem.{IsFileSystem, Outcome, done, no_such_file, failed, is_inside}
use secnano.AgentTools.Files.{}
use secnano.AgentTools.Requests.{
  register_group, request_group, write_task_request, write_request_in, made, written, renamed,
  request_answer, resolve_tasks_dir, final_path, temp_path, request_name, request_fields,
  mention_of,
}
use secnano.AgentTools.Dispatch.{
  ToolCall, ToolWorld, bash_call, register_call, read_call, write_call, edit_call, glob_call,
  grep_call, list_call, call_of, run_call, run_or_error, execute_tool,
}
use secnano.AgentTools.Workspace.{IsOutside, Same, outside-below}
use secnano.AgentTools.Workspace.Writes.{write_file-Same, edit_file-Same}

is_bash : Result ToolCall → Bool
is_bash (ok (bash_call command timeout)) = true
is_bash _ = false

call_of-is_bash :
    (tool : String) (fields : List (String × Json))
    → (tool == "bash") ≡ false
    → is_bash (call_of tool fields) ≡ false
unfolding is_bash
call_of-is_bash tool fields other = ground (arith, other)

module _ {Disk : Type 0} (w : ToolWorld Disk) (laws : IsFileSystem w.fs) (q : String) where
  renamed-Same :
      (d : Disk) (r : Outcome (Unit {0}) × Disk)
      → Same w q d r.1
      → Same w q d (renamed w.fs w.env r).1
  renamed-Same d (done u, e) h = h
  renamed-Same d (no_such_file x, e) h = h
  renamed-Same d (failed x, e) h = h

  written-Same :
      (tasks_dir : String) (d : Disk) (r : Outcome (Unit {0}) × Disk)
      → is_inside tasks_dir q ≡ false
      → Same w q d r.1
      → Same w q d (written w.fs w.env tasks_dir r).1
  written-Same tasks_dir d (no_such_file x, e) out h = h
  written-Same tasks_dir d (failed x, e) out h = h
  written-Same tasks_dir d (done u, e) out h =
      renamed-Same d (w.fs.rename (temp_path w.env tasks_dir) (final_path w.env tasks_dir) e) (
        laws.rename-others (temp_path w.env tasks_dir) (final_path w.env tasks_dir) q e
          (outside-below tasks_dir ("." ⧺ request_name w.env ⧺ ".tmp") q out)
          (outside-below tasks_dir (request_name w.env) q out)
        ∙ h)

  made-Same :
      (tasks_dir content : String) (d : Disk) (r : Outcome (Unit {0}) × Disk)
      → is_inside tasks_dir q ≡ false
      → Same w q d r.1
      → Same w q d (made w.fs w.env tasks_dir content r).1
  made-Same tasks_dir content d (no_such_file x, e) out h = h
  made-Same tasks_dir content d (failed x, e) out h = h
  made-Same tasks_dir content d (done u, e) out h =
      written-Same tasks_dir d (w.fs.write_text (temp_path w.env tasks_dir) content e) out (
        laws.write_text-others (temp_path w.env tasks_dir) q content e
          (outside-below tasks_dir ("." ⧺ request_name w.env ⧺ ".tmp") q out)
        ∙ h)

  write_task_request-Same :
      (fields : List (String × Json)) (d : Disk)
      → ((tasks_dir : String)
          → resolve_tasks_dir w.env ≡ ok tasks_dir
          → is_inside tasks_dir q ≡ false)
      → Same w q d (write_task_request w.fs w.dumps w.env fields d).1
  unfolding write_task_request
  write_task_request-Same fields d out = go (resolve_tasks_dir w.env) refl
    where
      go :
          (r : Result String)
          → resolve_tasks_dir w.env ≡ r
          → Same w q d (write_request_in w.fs w.env (w.dumps fields) d r).1
      go (raised e) h = refl
      go (ok tasks_dir) h =
          made-Same tasks_dir (w.dumps fields) d (w.fs.make_directory tasks_dir d) (out tasks_dir h)
            (laws.make_directory-others tasks_dir q d)

  request_answer-Same :
      (d : Disk) (r : Result String × Disk) → Same w q d r.1 → Same w q d (request_answer w.fs r).1
  request_answer-Same d (ok filename, e) h = h
  request_answer-Same d (raised x, e) h = h

  request_group-Same :
      (jid name folder trigger : String) (requires_trigger : Option Bool) (cwd : String) (d : Disk)
      → IsOutside w cwd q d
      → Same w q d (request_group w.fs w.dumps w.env jid name folder trigger requires_trigger d).1
  request_group-Same jid name folder trigger requires_trigger cwd d out =
      elim (Bool-cases (is_empty jid || is_empty name || is_empty folder || is_empty trigger)) [
        | inl e ↦ rw e refl
        | inr e ↦
            let fields = request_fields w.env jid name folder trigger requires_trigger in
            let queued =
              request_answer-Same d (write_task_request w.fs w.dumps w.env fields d)
                (write_task_request-Same fields d out.requests) in
            rw e (elim (Bool-cases (matches_pattern folder)) [
              | inl v ↦ rw v queued
              | inr v ↦ rw v refl
            ])
      ]

  run_call-Same :
      (call : ToolCall) (cwd : String) (d : Disk)
      → is_bash (ok call) ≡ false
      → IsOutside w cwd q d
      → Same w q d (run_call w call cwd d).1
  unfolding is_bash
  run_call-Same (bash_call command timeout) cwd d no_bash out = cc
  run_call-Same (register_call jid name folder trigger requires_trigger) cwd d no_bash out =
      unfold register_group in
      request_group-Same (strip jid) (strip name) (strip folder)
        (strip (opt_or trigger (mention_of w.env))) requires_trigger cwd d out
  run_call-Same (read_call path) cwd d no_bash out = refl
  run_call-Same (write_call path content) cwd d no_bash out =
      write_file-Same w laws q path content cwd d out
  run_call-Same (edit_call path old_str new_str) cwd d no_bash out =
      edit_file-Same w laws q path old_str new_str cwd d out
  run_call-Same (glob_call pattern) cwd d no_bash out = refl
  run_call-Same (grep_call pattern path case_insensitive) cwd d no_bash out = refl
  run_call-Same (list_call path) cwd d no_bash out = refl

  -- A call of any tool but `bash`, with any arguments, leaves every file as it was that is neither in
  -- the workspace nor in the directory for requests, on a file system where writing to a path changes
  -- the file of no other path.
  pub execute_tool-IsOutside :
      (tool : String) (fields : List (String × Json)) (cwd : String) (d : Disk)
      → (tool == "bash") ≡ false
      → IsOutside w cwd q d
      → w.fs.text_at q (execute_tool w tool fields cwd d).1 ≡ w.fs.text_at q d
  unfolding execute_tool
  execute_tool-IsOutside tool fields cwd d other out =
      go (call_of tool fields) (call_of-is_bash tool fields other)
    where
      go : (r : Result ToolCall) → is_bash r ≡ false → Same w q d (run_or_error w r cwd d).1
      go (raised e) h = refl
      go (ok call) h = run_call-Same call cwd d h out
