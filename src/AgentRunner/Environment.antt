-- ===== src/AgentRunner/Environment.antt =====
-- What agent_runner/main.py and agent_runner/tools.py read of the environment of their process.
use secnano.Prelude.{String, Option, none, if◌then◌else◌, opt_true, opt_or, List}
use secnano.Types.{Json}
use secnano.Effect.{Result}
use secnano.Settings.Environ.{Variables, get_var, var_or}
use secnano.AgentTools.Requests.{AgentEnv}
use secnano.AgentRunner.Loop.{Launch}

-- `base_url` is left to the client where the variable is empty.
pub record ClientArgs : Type 0 where
  pub base_url : Option String
  pub model : String

abbrev pub filled : Option String → Option String
filled o = if opt_true o then o else none

abbrev pub client_args : Variables → ClientArgs
client_args env = record {
  base_url = filled (get_var "ANTHROPIC_BASE_URL" env);
  model = var_or "ANTHROPIC_MODEL" "claude-opus-4-5" env;
}

-- The variables that the tools read.
abbrev pub agent_env : Variables → (millis hex now : String) → AgentEnv
agent_env env millis hex now = record {
  tasks_dir = get_var "SECNANO_TASKS_DIR" env;
  data_dir = get_var "SECNANO_DATA_DIR" env;
  group_folder = get_var "SECNANO_GROUP_FOLDER" env;
  assistant_name = get_var "ASSISTANT_NAME" env;
  millis = millis;
  hex = hex;
  now = now;
}

abbrev pub launch_of : Variables → Result (List (String × Json)) → Option String → Launch
launch_of env input client_error = record {
  input = input;
  api_key = var_or "ANTHROPIC_API_KEY" "" env;
  client_error = client_error;
}

-- `join` is `/` of a path and a name.
module _ (join : String → String → String) where
  abbrev pub get_session_file_path : Variables → (group_folder : String) → String
  get_session_file_path env group_folder =
      join (join (join (var_or "SECNANO_DATA_DIR" "data" env) "sessions") group_folder)
        "history.json"

  -- The directory that `wait_for_ipc_message` looks into.
  abbrev pub ipc_input_dir : Variables → (group_folder : String) → String
  ipc_input_dir env group_folder =
      if opt_true (get_var "SECNANO_IPC_DIR" env)
      then opt_or (get_var "SECNANO_IPC_DIR" env) ""
      else join (join (join (var_or "SECNANO_DATA_DIR" "data" env) "ipc") group_folder) "input"
