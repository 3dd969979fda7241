-- ===== src/Handshake.antt =====
-- How the host and an agent's process meet: what secnano/subprocess_runner.py hands over, and what
-- agent_runner/main.py and agent_runner/tools.py read of it. `join` is `/` of a path and a name.
pub mod Stdin
pub mod Tasks
pub mod Answers
pub mod Messages
use secnano.Prelude.{
  ℕ, String, ◌≡◌, ◌≢◌, refl, ◌∙◌, Bool, true, false, Option, none, some, List, [], ◌∷◌, ◌==◌,
  if◌then◌else◌, is_empty, opt_true, opt_or, All, Bool-cases, inl, inr, eq_iff, arith,
}
use secnano.Types.{Json, RegisteredGroup, SubprocessInput}
use secnano.Effect.{Result, ok}
use secnano.EnvFile.{set_item}
use secnano.Settings.{Settings}
use secnano.Settings.Environ.{Variables, get_var, var_or, get_var-set_item}
use secnano.Subprocess.Spawn.{
  spawn, build_env, set_filled, tasks_dir, input_dir, group_ipc_dir, secnano_vars,
}
use secnano.AgentTools.Requests.{resolve_tasks_dir}
use secnano.AgentRunner.Environment.{agent_env, launch_of, get_session_file_path, ipc_input_dir}
use secnano.Ipc.Paths as Watcher
use secnano.GroupQueue.{GroupQueue, Process, IpcInput, message, register_process, send_message}
use secnano.GroupQueue.Processes.{registered_writes}
use secnano.GroupQueue.Paths.{path_of}

get_var-set_filled :
    (j k v : String) (env : Variables)
    → get_var j (set_filled k v env)
      ≡ (if is_empty v then get_var j env else if k == j then some v else get_var j env)
get_var-set_filled j k v env = elim (Bool-cases (is_empty v)) [
  | inl e ↦ rw e refl
  | inr e ↦ rw e (get_var-set_item j k v env)
]

set_filled_other :
    (j k v : String) (env : Variables)
    → (k == j) ≡ false
    → get_var j (set_filled k v env) ≡ get_var j env
set_filled_other j k v env other = ground (arith, get_var-set_filled j k v env, other)

-- The variables that `_build_env` may set.
abbrev pub passed_names : List String
passed_names =
    "PYTHONPATH" ∷ "SECNANO_GROUP_FOLDER" ∷ "SECNANO_CHAT_JID" ∷ "SECNANO_IS_MAIN"
    ∷ "SECNANO_GROUPS_DIR" ∷ "SECNANO_DATA_DIR" ∷ "SECNANO_GROUP_IPC_DIR" ∷ "SECNANO_TASKS_DIR"
    ∷ "SECNANO_IPC_DIR" ∷ "ANTHROPIC_API_KEY" ∷ "ANTHROPIC_BASE_URL" ∷ "ANTHROPIC_MODEL" ∷ []

differs : (k j : String) → k ≢ j → (k == j) ≡ false
differs k j other = ground (arith, eq_iff k j, other)

module _ (join : String → String → String) (settings : Settings) (environ : Variables)
    (folder chat_jid : String) (is_main : Bool) where
  abbrev env : Variables
  env = build_env join settings environ folder chat_jid is_main

  -- The variables of the API do not touch the others.
  plain_var :
      (j : String)
      → ("ANTHROPIC_API_KEY" == j) ≡ false
      → ("ANTHROPIC_BASE_URL" == j) ≡ false
      → ("ANTHROPIC_MODEL" == j) ≡ false
      → get_var j env ≡ get_var j (secnano_vars join settings folder chat_jid is_main environ)
  unfolding build_env
  plain_var j key url model =
      set_filled_other j "ANTHROPIC_MODEL" settings.anthropic_model _ model
      ∙ set_filled_other j "ANTHROPIC_BASE_URL" settings.anthropic_base_url _ url
      ∙ set_filled_other j "ANTHROPIC_API_KEY" settings.anthropic_api_key _ key

  ipc_var : get_var "SECNANO_IPC_DIR" env ≡ some (input_dir join settings folder)
  ipc_var = plain_var "SECNANO_IPC_DIR" refl refl refl ∙ get_var-set_item _ _ _ _

  tasks_var : get_var "SECNANO_TASKS_DIR" env ≡ some (tasks_dir join settings folder)
  tasks_var = plain_var "SECNANO_TASKS_DIR" refl refl refl ∙ simp get_var-set_item

  data_var : get_var "SECNANO_DATA_DIR" env ≡ some settings.data_dir
  data_var = plain_var "SECNANO_DATA_DIR" refl refl refl ∙ simp get_var-set_item

  inherited_var :
      (j : String) → All (λ (k : String). k ≢ j) passed_names → get_var j env ≡ get_var j environ
  inherited_var j
        (
          path,
          (
            folder_,
            (jid, (main, (groups, (data_, (group, (tasks, (ipc, (key, (url, (model, _)))))))))),
          ),
        ) =
      plain_var j (differs _ j key) (differs _ j url) (differs _ j model)
      ∙ simp (
        get_var-set_item,
        differs _ j path,
        differs _ j folder_,
        differs _ j jid,
        differs _ j main,
        differs _ j groups,
        differs _ j data_,
        differs _ j group,
        differs _ j tasks,
        differs _ j ipc,
      )

  own_key :
      get_var "ANTHROPIC_API_KEY" (secnano_vars join settings folder chat_jid is_main environ)
      ≡ get_var "ANTHROPIC_API_KEY" environ
  own_key = simp get_var-set_item

  key_var : var_or "ANTHROPIC_API_KEY" "" env ≡ (
      if is_empty settings.anthropic_api_key
      then var_or "ANTHROPIC_API_KEY" "" environ
      else settings.anthropic_api_key)
  unfolding build_env
  key_var =
      rw
        (
          set_filled_other "ANTHROPIC_API_KEY" "ANTHROPIC_MODEL" settings.anthropic_model
              (set_filled "ANTHROPIC_BASE_URL" settings.anthropic_base_url (
                set_filled "ANTHROPIC_API_KEY" settings.anthropic_api_key
                  (secnano_vars join settings folder chat_jid is_main environ)))
              refl,
          set_filled_other "ANTHROPIC_API_KEY" "ANTHROPIC_BASE_URL" settings.anthropic_base_url
              (set_filled "ANTHROPIC_API_KEY" settings.anthropic_api_key
                (secnano_vars join settings folder chat_jid is_main environ))
              refl,
          get_var-set_filled "ANTHROPIC_API_KEY" "ANTHROPIC_API_KEY" settings.anthropic_api_key
              (secnano_vars join settings folder chat_jid is_main environ),
        )
        (elim (Bool-cases (is_empty settings.anthropic_api_key)) [
          | inl e ↦ rw (e, own_key) refl
          | inr e ↦ rw e refl
        ])

module _ (join : String → String → String) (settings : Settings) (environ : Variables)
    (group : RegisteredGroup) (input : SubprocessInput) where
  -- The environment of the spawned process.
  abbrev handed : Variables
  handed = (spawn join settings environ group input).env

  -- Where the process looks, and what it inherits.
  pub record Meets : Type 1 where
    pub tasks :
        (millis hex now : String)
        → resolve_tasks_dir (agent_env handed millis hex now)
          ≡ ok (Watcher.tasks_dir join settings.data_dir group.folder)
    pub messages :
        (F : Type 0) (jid name filename content own_folder : String) (proc : Process)
        (q : GroupQueue F)
        → (file : IpcInput) × ((send_message jid filename content
              (register_process jid proc name group.folder q)).1
            ≡ some file)
          × (path_of join settings.data_dir file
              ≡ join (ipc_input_dir join handed own_folder) filename)
    pub history :
        get_session_file_path join handed group.folder
        ≡ join (join (join settings.data_dir "sessions") group.folder) "history.json"
    pub key : var_or "ANTHROPIC_API_KEY" "" handed ≡ (
        if is_empty settings.anthropic_api_key
        then var_or "ANTHROPIC_API_KEY" "" environ
        else settings.anthropic_api_key)
    pub inherited :
        (j : String)
        → All (λ (k : String). k ≢ j) passed_names
        → get_var j handed ≡ get_var j environ

  -- If paths are never empty texts and the group has a folder, the agent's process writes its task
  -- requests into the directory that the watcher polls for the folder, looks for messages in the
  -- directory into which the host writes them once the process is registered, and keeps its history
  -- in the folder's session directory. It has the API key of the settings, or else the host's own, and
  -- inherits every other variable.
  pub spawn-Meets :
      ((a b : String) → is_empty (join a b) ≡ false) → is_empty group.folder ≡ false → Meets
  unfolding spawn resolve_tasks_dir
  spawn-Meets filled named =
      let own_tasks = tasks_var join settings environ group.folder input.chat_jid input.is_main in
      let own_ipc = ipc_var join settings environ group.folder input.chat_jid input.is_main in
      let own_data = data_var join settings environ group.folder input.chat_jid input.is_main in
      record {
        tasks = λ millis hex now.
            rw (own_tasks, filled (group_ipc_dir join settings group.folder) "tasks") refl;
        messages = λ F jid name filename content own_folder proc q. (
          message group.folder filename content,
          registered_writes jid proc name group.folder q filename content named,
          rw (own_ipc, filled (group_ipc_dir join settings group.folder) "input") refl,
        );
        history = rw own_data refl;
        key = key_var join settings environ group.folder input.chat_jid input.is_main;
        inherited = inherited_var join settings environ group.folder input.chat_jid input.is_main;
      }
