-- ===== src/Tests/Data.antt =====
-- A host with a main group and a team, and what reaches it.
use secnano.Prelude.{String, Bool, true, false, Option, none, some, [], ◌∷◌, eqb, if◌then◌else◌}
use secnano.Types.{
  IpcTaskRequest, NewMessage, ScheduledTask, RegisteredGroup, Chat, Message, TraceEvent, text,
  AgentInput, AgentOutput,
}
use secnano.Effect.{ok}
use secnano.Db.Database.{Database, GroupRow, init_database}
use secnano.Host.{System, Host}
use secnano.Scheduler.{Calendar}

abbrev pub test_system : System
test_system = record {
  clock = λ n. "2026-01-01T00:00:00+00:00";
  uuid = λ n. if eqb n 0 then "u0" else "u1";
}

abbrev pub group_row_of : String → String → Bool → GroupRow
group_row_of jid folder is_main = record {
  jid = jid;
  name = folder;
  folder = folder;
  trigger = "@Andy";
  added_at = "2025-12-01T00:00:00+00:00";
  subprocess_config = none;
  requires_trigger = some true;
  is_main = some is_main;
}

abbrev pub test_message : String → String → Message
test_message id timestamp = record {
  id = id;
  chat_jid = "web:team";
  sender = "alice";
  sender_name = "Alice";
  content = "hello";
  timestamp = timestamp;
  is_from_me = false;
  is_bot_message = false;
}

abbrev pub test_chat : Chat
test_chat = record {
  jid = "web:team";
  name = "Team";
  last_message_time = "2025-12-02T00:00:00+00:00";
  channel = "web";
  is_group = true;
}

abbrev pub test_database : Database
test_database = record init_database {
  chats = test_chat ∷ [];
  messages = test_message "m1" "2025-12-01" ∷ test_message "m2" "2025-12-02" ∷ [];
  registered_groups =
      group_row_of "web:main" "main" true ∷ group_row_of "web:team" "team" false ∷ [];
}

abbrev pub test_host : Host
test_host = record {
  db = test_database;
  store = record { recent = []; maxlen = 2 };
  group_dirs = [];
  enqueued = [];
  ticks = 0;
  uuids = 0;
}

abbrev pub test_request : String → String → String → IpcTaskRequest
test_request source_group jid folder = record {
  id = "t1";
  source_group = source_group;
  type = "register_group";
  payload =
      ("jid", text jid)
      ∷ ("name", text "New")
      ∷ ("folder", text folder)
      ∷ ("trigger", text "@Andy")
      ∷ [];
  timestamp = none;
}

abbrev pub test_new_message : Bool → NewMessage
test_new_message is_from_me = record {
  id = "m3";
  chat_jid = "web:team";
  sender = "alice";
  sender_name = "Alice";
  content = "@Andy hello";
  timestamp = "2026-01-01T00:00:00+00:00";
  is_from_me = is_from_me;
  is_bot_message = false;
}

abbrev pub test_task : ScheduledTask
test_task = record {
  id = "s1";
  group_folder = "team";
  chat_jid = "web:team";
  prompt = "report";
  schedule_type = "once";
  schedule_value = "";
  context_mode = "group";
  next_run = some "2025-12-31T00:00:00+00:00";
  last_run = none;
  last_result = none;
  status = "active";
  created_at = "2025-12-01T00:00:00+00:00";
}

abbrev pub test_calendar : Calendar
test_calendar = record {
  add_interval = λ value now. some (ok "2026-01-02T00:00:00+00:00");
  next_cron = λ value now. some "2026-01-03T00:00:00+00:00";
  reached = λ next_run now. some true;
}

abbrev pub test_group : RegisteredGroup
test_group = record {
  jid = "web:team";
  name = "team";
  folder = "team";
  trigger = "@Andy";
  added_at = "2025-12-01T00:00:00+00:00";
  subprocess_config = none;
  requires_trigger = some true;
  is_main = some false;
}

abbrev pub test_event : String → TraceEvent
test_event id = record {
  event_id = id;
  trace_id = "m3";
  timestamp = "2026-01-01T00:00:00+00:00";
  category = "message";
  stage = "message.received";
  status = "accepted";
  jid = none;
  group_folder = none;
  task_id = none;
  run_id = none;
  source = none;
  details = [];
}

abbrev pub test_input : AgentInput
test_input = record {
  run_id = "r1";
  trace_id = "m3";
  group_folder = "team";
  chat_jid = "web:team";
  is_main = false;
  mode = "message";
  prompt = "hello";
  session_id = none;
}

abbrev pub test_output : Option String → AgentOutput
test_output reply_text = record {
  run_id = "r1";
  status = "success";
  reply_text = reply_text;
  session_id = some "session-1";
  error = none;
}
