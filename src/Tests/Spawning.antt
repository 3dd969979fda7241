-- ===== src/Tests/Spawning.antt =====
-- The start of an agent's process for a team.
use secnano.Prelude.{
  Bool, strip, String, ◌≡◌, refl, false, none, some, List, [], ◌∷◌, ◌==◌, if◌then◌else◌, is_empty,
  ◌⧺◌,
}
use secnano.Types.{Json, SubprocessInput, RegisteredGroup}
use secnano.Effect.{Result, ok, raised}
use secnano.Settings.{Settings}
use secnano.Settings.Environ.{Variables}
use secnano.Subprocess.Spawn.{spawn, stdin_payload, build_env}
use secnano.AgentRunner.Session.{absent}
use secnano.AgentRunner.Loop.{main}
use secnano.AgentRunner.Environment.{launch_of}
use secnano.Handshake.{Meets, spawn-Meets}
use secnano.Handshake.Stdin.{asked_conversation, main-asked_conversation}
use secnano.Handshake.Tasks.{
  IsWritable, Queued, sent, wanted, Registered, register_group-Registered,
}
use secnano.Ipc.{handle_task_file}
use secnano.AgentTools.Requests.{register_group, resolve_tasks_dir}
use secnano.GroupFolder.{matches_pattern}
use secnano.Db.Groups.{get_registered_group}
use secnano.Tests.Data.{test_group, test_host, test_system}
use secnano.Tests.Disk.{lookup-put_same, move_there, test_disk, test_fs, test_env}
use secnano.Tests.Agent.{always, numbered_id, test_responses}

abbrev slash : String → String → String
slash path name = path ⧺ ("/" ⧺ name)

slash_filled : (a b : String) → is_empty (slash a b) ≡ false
unfolding ◌⧺◌
slash_filled String.[] b = refl
slash_filled (String.◌∷◌ c a) b = refl

abbrev test_settings : Settings
test_settings = record {
  assistant_name = "Bot";
  project_root = "/srv";
  home_dir = "/home/bot";
  store_dir = "/srv/store";
  groups_dir = "/srv/groups";
  data_dir = "/srv/data";
  subprocess_timeout = 1800;
  max_concurrent_subprocesses = 5;
  anthropic_api_key = "key";
  anthropic_base_url = "";
  anthropic_model = "model";
  ipc_dir = "/srv/data/ipc";
  sessions_dir = "/srv/data/sessions";
  web_channel_host = "127.0.0.1";
  web_channel_port = 8765;
  default_main_jid = "web:main";
  default_main_folder = "main";
  default_main_name = "Main Web Chat";
  db_path = "/srv/data/secnano.db";
}

abbrev test_environ : Variables
test_environ = ("PATH", "/bin") ∷ ("SECNANO_TASKS_DIR", "/old") ∷ []

abbrev test_input : SubprocessInput
test_input = record {
  prompt = "read a.txt";
  group_folder = "team";
  chat_jid = "web:team";
  is_main = false;
  session_id = some "s1";
  is_scheduled_task = false;
  assistant_name = "Andy";
}

spawn-Meets_example : Meets slash test_settings test_environ test_group test_input
spawn-Meets_example =
    spawn-Meets slash test_settings test_environ test_group test_input slash_filled refl

-- The text of one object, and no other.
abbrev test_dumps : List (String × Json) → String
test_dumps fields = "{...}"

abbrev test_loads : String → Result (List (String × Json))
test_loads s = if s == "{...}" then ok (stdin_payload test_input) else raised "JSONDecodeError"

main-asked_conversation_example :
    main always "/srv/groups/team" numbered_id
      (launch_of
        (spawn slash test_settings test_environ test_group test_input).env
        (test_loads
          (test_dumps (spawn slash test_settings test_environ test_group test_input).stdin))
        none)
      ("sure?" ∷ [])
      test_responses
      absent
      test_disk
    ≡ asked_conversation always "/srv/groups/team" numbered_id test_input
        ("sure?" ∷ [])
        test_responses
        absent
        test_disk
unfolding spawn build_env secnano.Settings.Environ.get_var secnano.EnvFile.set_item
main-asked_conversation_example =
    main-asked_conversation always "/srv/groups/team" numbered_id slash test_settings test_environ
      test_dumps test_loads test_group test_input ("sure?" ∷ []) test_responses absent test_disk
      refl refl refl

-- A call whose texts have spaces around them.
abbrev call_members : List (String × Json)
call_members = sent test_env " web:new " "New" "new" none (some false)

abbrev call_dumps : List (String × Json) → String
call_dumps fields = "{...}"

abbrev call_loads : String → Result (List (String × Json))
call_loads s = if s == "{...}" then ok call_members else raised "JSONDecodeError"

abbrev no_one : String → Bool
no_one sender = false

abbrev no_trigger : RegisteredGroup → String → Bool
no_trigger group content = false

test_fs-IsWritable : IsWritable test_fs test_env "/data/ipc/team/tasks"
test_fs-IsWritable = record {
  makes = λ d. refl;
  writes = λ content d. (refl, lookup-put_same _ content d);
  renames = λ content d there. move_there _ _ content d there;
}

register_group-Registered_example :
    (content : String) × Queued test_fs test_env "/data/ipc/team/tasks" content (
      register_group test_fs call_dumps test_env " web:new " "New" "new" none
        (some false)
        test_disk)
    × (added_at : String) × Registered test_system no_one no_trigger call_dumps call_loads
        (handle_task_file test_system no_one no_trigger call_loads "main" "1" content test_host)
        test_host
        (wanted test_env " web:new " "New" "new" none (some false) added_at)
unfolding strip matches_pattern get_registered_group ◌⧺◌ secnano.Db.Table.find_row resolve_tasks_dir
register_group-Registered_example =
    register_group-Registered test_system no_one no_trigger call_dumps call_loads test_fs test_env
      "/data/ipc/team/tasks" " web:new " "New" "new" none (some false) test_disk test_host "main"
      "1" refl test_fs-IsWritable refl refl refl refl
