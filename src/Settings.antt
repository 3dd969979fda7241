-- ===== src/Settings.antt =====
-- secnano/config.py: the constants, from the `.env` file and the environment of the process.
pub mod Environ
use secnano.Prelude.{ℕ, String, Option, none, some, List}
use secnano.Effect.{Result, and_then, ok}
use secnano.EnvFile.{read_env_file}
use secnano.Settings.Environ.{Variables, get_var, var_or}
use secnano.Prelude.{opt_or}

-- The directories are texts of paths.
pub record Settings : Type 0 where
  pub assistant_name : String
  pub project_root : String
  pub home_dir : String
  pub store_dir : String
  pub groups_dir : String
  pub data_dir : String
  pub subprocess_timeout : ℕ
  pub max_concurrent_subprocesses : ℕ
  pub anthropic_api_key : String
  pub anthropic_base_url : String
  pub anthropic_model : String
  pub ipc_dir : String
  pub sessions_dir : String
  pub web_channel_host : String
  pub web_channel_port : ℕ
  pub default_main_jid : String
  pub default_main_folder : String
  pub default_main_name : String
  pub db_path : String

abbrev pub poll_interval : ℕ
poll_interval = 2

abbrev pub scheduler_poll_interval : ℕ
scheduler_poll_interval = 60

abbrev pub ipc_poll_interval : ℕ
ipc_poll_interval = 1

abbrev pub idle_timeout : ℕ
idle_timeout = 1800

-- `_get`; `env_file` is what `read_env_file` returns.
unfoldable pub get : (env_file environ : Variables) → (key default : String) → String
unfolding get_var
get env_file environ key default = opt_or (get_var key env_file) (var_or key default environ)

-- `join` is `/` of a path and a name, and `int_of` is `int` of a text, with its `ValueError`.
module _ (join : String → String → String) (int_of : String → Result ℕ) where
  abbrev pub settings :
      (read : String → String → String)
      → (cwd home : String) → (timeout concurrent port : ℕ) → Settings
  settings read cwd home timeout concurrent port = record {
    assistant_name = read "ASSISTANT_NAME" "Andy";
    project_root = cwd;
    home_dir = home;
    store_dir = join cwd "store";
    groups_dir = join cwd "groups";
    data_dir = join cwd "data";
    subprocess_timeout = timeout;
    max_concurrent_subprocesses = concurrent;
    anthropic_api_key = read "ANTHROPIC_API_KEY" "";
    anthropic_base_url = read "ANTHROPIC_BASE_URL" "";
    anthropic_model = read "ANTHROPIC_MODEL" "claude-opus-4-5";
    ipc_dir = join (join cwd "data") "ipc";
    sessions_dir = join (join cwd "data") "sessions";
    web_channel_host = read "WEB_CHANNEL_HOST" "127.0.0.1";
    web_channel_port = port;
    default_main_jid = read "DEFAULT_MAIN_JID" "web:main";
    default_main_folder = read "DEFAULT_MAIN_FOLDER" "main";
    default_main_name = read "DEFAULT_MAIN_NAME" "Main Web Chat";
    db_path = join (join cwd "data") "secnano.db";
  }

  -- The three numbers, in the order in which the module reads them.
  abbrev pub numbers : (read : String → String → String) → (cwd home : String) → Result Settings
  numbers read cwd home = and_then (int_of (read "SUBPROCESS_TIMEOUT" "1800")) (λ timeout.
      and_then (int_of (read "MAX_CONCURRENT_SUBPROCESSES" "5")) (λ concurrent.
        and_then (int_of (read "WEB_CHANNEL_PORT" "8765"))
          (λ port. ok (settings read cwd home timeout concurrent port))))

  -- The module, from the text of the `.env` file, if there is one, the working directory and the home directory.
  unfoldable pub load_settings :
      (env_text : Option String) → (environ : Variables) → (cwd home : String) → Result Settings
  unfolding get read_env_file
  load_settings env_text environ cwd home = numbers (get (read_env_file env_text) environ) cwd home
