-- ===== src/AgentTools/Requests.antt =====
-- `execute_bash` and `register_group` of agent_runner/tools.py.
use secnano.Prelude.{
  ℕ, String, Bool, ◌||◌, Option, none, some, List, [], ◌∷◌, if◌then◌else◌, leb, is_empty, ◌⧺◌,
  str_or, opt_or, opt_true, strip, show,
}
use secnano.Types.{Json, boolean, text}
use secnano.Effect.{Result, ok, raised}
use secnano.GroupFolder.{matches_pattern}
use secnano.AgentTools.FileSystem.{
  FileSystem, Outcome, done, no_such_file, failed, Shell, finished, timed_out, shell_failed,
}
use secnano.AgentTools.Files.{tool_error}

abbrev pub error_part : String → String
error_part stderr = if is_empty stderr then "" else "\n[stderr]\n" ⧺ stderr

abbrev pub exit_part : Option String → String
exit_part none = ""
exit_part (some exit_code) = "\n[exit code: " ⧺ exit_code ⧺ "]"

abbrev pub shell_answer : ℕ → Shell → String
shell_answer timeout (finished stdout stderr exit_code) =
    str_or (strip (stdout ⧺ error_part stderr ⧺ exit_part exit_code)) "(no output)"
shell_answer timeout timed_out = tool_error ("Command timed out after " ⧺ show timeout ⧺ "s")
shell_answer timeout (shell_failed e) = tool_error e

abbrev pub min_timeout : ℕ → ℕ
min_timeout timeout = if leb timeout 120 then timeout else 120

-- The environment of the agent's process, and what a call reads of the clock and of `uuid4`:
-- `millis` is the text of `int(time.time() * 1000)`, `hex` the first 8 digits, `now` the ISO time.
pub record AgentEnv : Type 0 where
  pub tasks_dir : Option String
  pub data_dir : Option String
  pub group_folder : Option String
  pub assistant_name : Option String
  pub millis : String
  pub hex : String
  pub now : String

-- `_resolve_tasks_dir`
unfoldable pub resolve_tasks_dir : AgentEnv → Result String
unfolding ◌⧺◌
resolve_tasks_dir env =
    if opt_true env.tasks_dir
    then ok (opt_or env.tasks_dir "")
    else if opt_true env.data_dir
    then (if opt_true env.group_folder
        then ok (opt_or env.data_dir "" ⧺ "/ipc/" ⧺ opt_or env.group_folder "" ⧺ "/tasks")
        else raised "SECNANO_TASKS_DIR (or DATA_DIR + GROUP_FOLDER) is not configured")
    else raised "SECNANO_TASKS_DIR (or DATA_DIR + GROUP_FOLDER) is not configured"

abbrev pub request_name : AgentEnv → String
request_name env = env.millis ⧺ "_" ⧺ env.hex ⧺ ".json"

abbrev pub final_path : AgentEnv → String → String
final_path env tasks_dir = tasks_dir ⧺ "/" ⧺ request_name env

abbrev pub temp_path : AgentEnv → String → String
temp_path env tasks_dir = tasks_dir ⧺ "/" ⧺ "." ⧺ request_name env ⧺ ".tmp"

-- The members of the request, in order.
abbrev pub request_fields :
    AgentEnv → (jid name folder trigger : String) → Option Bool → List (String × Json)
request_fields env jid name folder trigger requires_trigger =
    ("type", text "register_group")
    ∷ ("jid", text jid)
    ∷ ("name", text name)
    ∷ ("folder", text folder)
    ∷ ("trigger", text trigger)
    ∷ ("timestamp", text env.now)
    ∷ elim requires_trigger [ none ↦ [] | some b ↦ ("requires_trigger", boolean b) ∷ [] ]

-- `os.environ.get("ASSISTANT_NAME", "Andy").strip() or "Andy"`
abbrev pub mention_of : AgentEnv → String
mention_of env =
    "@" ⧺ str_or (strip (elim env.assistant_name [ none ↦ "Andy" | some n ↦ n ])) "Andy"

module _ {Disk : Type 0} (fs : FileSystem Disk) where
  unfoldable pub execute_bash : (command : String) → (timeout : ℕ) → Disk → String × Disk
  unfolding strip ◌⧺◌ show
  execute_bash command timeout d =
      let (shell, d') = fs.run_shell command (min_timeout timeout) d in
      (shell_answer (min_timeout timeout) shell, d')

  -- What `_write_task_request` does after a call that ended well.
  abbrev pub renamed : AgentEnv → Outcome (Unit {0}) × Disk → Result String × Disk
  renamed env (done u, d) = (ok (request_name env), d)
  renamed env (no_such_file e, d) = (raised e, d)
  renamed env (failed e, d) = (raised e, d)

  abbrev pub written : AgentEnv → String → Outcome (Unit {0}) × Disk → Result String × Disk
  written env tasks_dir (done u, d) =
      renamed env (fs.rename (temp_path env tasks_dir) (final_path env tasks_dir) d)
  written env tasks_dir (no_such_file e, d) = (raised e, d)
  written env tasks_dir (failed e, d) = (raised e, d)

  abbrev pub made : AgentEnv → String → String → Outcome (Unit {0}) × Disk → Result String × Disk
  made env tasks_dir content (done u, d) =
      written env tasks_dir (fs.write_text (temp_path env tasks_dir) content d)
  made env tasks_dir content (no_such_file e, d) = (raised e, d)
  made env tasks_dir content (failed e, d) = (raised e, d)

  abbrev pub write_request_in : AgentEnv → String → Disk → Result String → Result String × Disk
  write_request_in env content d (raised e) = (raised e, d)
  write_request_in env content d (ok tasks_dir) =
      made env tasks_dir content (fs.make_directory tasks_dir d)

  -- `_write_task_request`; `dumps` is `json.dumps`.
  unfoldable pub write_task_request :
      (dumps : List (String × Json) → String)
      → AgentEnv
      → List (String × Json)
      → Disk
      → Result String × Disk
  unfolding ◌⧺◌ resolve_tasks_dir
  write_task_request dumps env fields d =
      write_request_in env (dumps fields) d (resolve_tasks_dir env)

  abbrev pub request_answer : Result String × Disk → String × Disk
  request_answer (ok filename, d) = ("register_group request queued: " ⧺ filename, d)
  request_answer (raised e, d) = (tool_error ("Failed to write IPC task: " ⧺ e), d)

  -- `register_group`, with its texts stripped.
  abbrev pub request_group :
      (dumps : List (String × Json) → String)
      → AgentEnv
      → (jid name folder trigger : String) → Option Bool
      → Disk
      → String × Disk
  request_group dumps env jid name folder trigger requires_trigger d =
      if is_empty jid || is_empty name || is_empty folder || is_empty trigger
      then (tool_error "jid, name, folder and trigger must be non-empty", d)
      else if matches_pattern folder
      then request_answer (
          write_task_request dumps env (request_fields env jid name folder trigger requires_trigger)
            d)
      else (tool_error "folder must match ^[A-Za-z0-9][A-Za-z0-9_-]{0,63}$", d)

  unfoldable pub register_group :
      (dumps : List (String × Json) → String)
      → AgentEnv
      → (jid name folder : String) → (trigger : Option String) → (requires_trigger : Option Bool)
      → Disk
      → String × Disk
  unfolding strip
  register_group dumps env jid name folder trigger requires_trigger d =
      request_group dumps env (strip jid) (strip name) (strip folder)
        (strip (opt_or trigger (mention_of env))) requires_trigger d
