-- ===== src/Db/Database.antt =====
-- The tables of secnano/db.py (`init_database`). A row is the data class that is written and read
-- back; an INTEGER column that holds `int(b)` is kept as the Boolean. The JSON text in
-- `registered_groups.subprocess_config` is kept as the one member that is written, `timeout`.
use secnano.Prelude.{ℕ, String, Bool, Option, List, []}
use secnano.Types.{Chat, Message, ScheduledTask, TaskRunLog, TraceEvent, Session}

pub record GroupRow : Type 0 where
  pub jid : String
  pub name : String
  pub folder : String
  pub trigger : String
  pub added_at : String
  pub subprocess_config : Option (Option ℕ)
  pub requires_trigger : Option Bool
  pub is_main : Option Bool

pub record Database : Type 0 where
  pub chats : List Chat
  pub messages : List Message
  pub scheduled_tasks : List ScheduledTask
  pub task_run_logs : List TaskRunLog
  pub trace_events : List TraceEvent
  pub sessions : List Session
  pub registered_groups : List GroupRow

-- A new file after `CREATE TABLE IF NOT EXISTS`.
abbrev pub init_database : Database
init_database = record {
  chats = [];
  messages = [];
  scheduled_tasks = [];
  task_run_logs = [];
  trace_events = [];
  sessions = [];
  registered_groups = [];
}
