-- ===== src/Subprocess/Spawn.antt =====
-- How secnano/subprocess_runner.py starts an agent: the environment, the working directory and the
-- JSON object on stdin.
use secnano.Prelude.{String, Bool, Option, none, some, List, [], ◌∷◌, if◌then◌else◌, is_empty, ◌⧺◌}
use secnano.Types.{Json, null, boolean, text, RegisteredGroup, SubprocessInput}
use secnano.EnvFile.{set_item}
use secnano.Settings.{Settings}
use secnano.Settings.Environ.{Variables}

-- `if value: env[key] = value`
abbrev pub set_filled : (key value : String) → Variables → Variables
set_filled key value env = if is_empty value then env else set_item key value env

abbrev pub json_text : Option String → Json
json_text none = null
json_text (some s) = text s

-- The object whose `json.dumps` is written to stdin.
abbrev pub stdin_payload : SubprocessInput → List (String × Json)
stdin_payload input =
    ("prompt", text input.prompt)
    ∷ ("session_id", json_text input.session_id)
    ∷ ("group_folder", text input.group_folder)
    ∷ ("chat_jid", text input.chat_jid)
    ∷ ("is_main", boolean input.is_main)
    ∷ ("is_scheduled_task", boolean input.is_scheduled_task)
    ∷ ("assistant_name", text input.assistant_name)
    ∷ []

-- `join` is `/` of a path and a name.
module _ (join : String → String → String) (settings : Settings) where
  -- `DATA_DIR / "ipc" / group_folder`
  abbrev pub group_ipc_dir : String → String
  group_ipc_dir group_folder = join (join settings.data_dir "ipc") group_folder

  abbrev pub tasks_dir : String → String
  tasks_dir group_folder = join (group_ipc_dir group_folder) "tasks"

  abbrev pub input_dir : String → String
  input_dir group_folder = join (group_ipc_dir group_folder) "input"

  abbrev pub anthropic_vars : Variables → Variables
  anthropic_vars env = set_filled "ANTHROPIC_MODEL" settings.anthropic_model (
      set_filled "ANTHROPIC_BASE_URL" settings.anthropic_base_url
        (set_filled "ANTHROPIC_API_KEY" settings.anthropic_api_key env))

  abbrev pub secnano_vars : (group_folder chat_jid : String) → Bool → Variables → Variables
  secnano_vars group_folder chat_jid is_main env =
      set_item "SECNANO_IPC_DIR" (input_dir group_folder) (
        set_item "SECNANO_TASKS_DIR" (tasks_dir group_folder) (
          set_item "SECNANO_GROUP_IPC_DIR" (group_ipc_dir group_folder) (
            set_item "SECNANO_DATA_DIR" settings.data_dir (
              set_item "SECNANO_GROUPS_DIR" settings.groups_dir (
                set_item "SECNANO_IS_MAIN" (if is_main then "1" else "0") (
                  set_item "SECNANO_CHAT_JID" chat_jid (
                    set_item "SECNANO_GROUP_FOLDER" group_folder
                      (set_item "PYTHONPATH" settings.project_root env))))))))

  -- `_build_env`; `environ` is the host's own environment.
  unfoldable pub build_env :
      (environ : Variables) → (group_folder chat_jid : String) → (is_main : Bool) → Variables
  build_env environ group_folder chat_jid is_main =
      anthropic_vars (secnano_vars group_folder chat_jid is_main environ)

  -- The arguments of `create_subprocess_exec`, and what goes to the process's stdin.
  pub record Spawn : Type 0 where
    pub name : String
    pub cwd : String
    pub env : Variables
    pub stdin : List (String × Json)

  unfoldable pub spawn : (environ : Variables) → RegisteredGroup → SubprocessInput → Spawn
  unfolding build_env ◌⧺◌
  spawn environ group input = record {
    name = "agent-" ⧺ group.folder;
    cwd = join settings.groups_dir group.folder;
    env = build_env environ group.folder input.chat_jid input.is_main;
    stdin = stdin_payload input;
  }
