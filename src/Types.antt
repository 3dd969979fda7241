-- ===== src/Types.antt =====
-- secnano/types.py: the data classes. A field `str | None` is an `Option String`, and the
-- timestamps are ISO-8601 texts, as in the source.
use secnano.Prelude.{ℕ, String, Bool, Option, List}

pub record AdditionalMount : Type 0 where
  pub host_path : String
  pub container_path : Option String
  pub readonly : Bool

pub record SubprocessConfig : Type 0 where
  pub additional_mounts : Option (List AdditionalMount)
  pub timeout : Option ℕ

pub record RegisteredGroup : Type 0 where
  pub jid : String
  pub name : String
  pub folder : String
  pub trigger : String
  pub added_at : String
  pub subprocess_config : Option SubprocessConfig
  pub requires_trigger : Option Bool
  pub is_main : Option Bool

pub record NewMessage : Type 0 where
  pub id : String
  pub chat_jid : String
  pub sender : String
  pub sender_name : String
  pub content : String
  pub timestamp : String
  pub is_from_me : Bool
  pub is_bot_message : Bool

pub record ChatMetadata : Type 0 where
  pub chat_jid : String
  pub timestamp : String
  pub name : Option String
  pub channel : Option String
  pub is_group : Option Bool

-- A value of a JSON object, as far as the payload of a task request uses it.
pub data Json : Type 0 where
  null : Json
  boolean : Bool → Json
  number : ℕ → Json
  text : String → Json

pub record IpcTaskRequest : Type 0 where
  pub id : String
  pub source_group : String
  pub type : String
  pub payload : List (String × Json)
  pub timestamp : Option String

pub record ScheduledTask : Type 0 where
  pub id : String
  pub group_folder : String
  pub chat_jid : String
  pub prompt : String
  pub schedule_type : String
  pub schedule_value : String
  pub context_mode : String
  pub next_run : Option String
  pub last_run : Option String
  pub last_result : Option String
  pub status : String
  pub created_at : String

pub record TaskRunLog : Type 0 where
  pub task_id : String
  pub run_at : String
  pub duration_ms : ℕ
  pub status : String
  pub result : Option String
  pub error : Option String

pub record SubprocessOutput : Type 0 where
  pub status : String
  pub result : Option String
  pub new_session_id : Option String
  pub error : Option String

pub record TraceEvent : Type 0 where
  pub event_id : String
  pub trace_id : String
  pub timestamp : String
  pub category : String
  pub stage : String
  pub status : String
  pub jid : Option String
  pub group_folder : Option String
  pub task_id : Option String
  pub run_id : Option String
  pub source : Option String
  pub details : List (String × Json)

-- The field `context_refs` is never set and is left out.
pub record AgentInput : Type 0 where
  pub run_id : String
  pub trace_id : String
  pub group_folder : String
  pub chat_jid : String
  pub is_main : Bool
  pub mode : String
  pub prompt : String
  pub session_id : Option String

-- The field `metrics` is never set and is left out.
pub record AgentOutput : Type 0 where
  pub run_id : String
  pub status : String
  pub reply_text : Option String
  pub session_id : Option String
  pub error : Option String

pub record Chat : Type 0 where
  pub jid : String
  pub name : String
  pub last_message_time : String
  pub channel : String
  pub is_group : Bool

pub record Message : Type 0 where
  pub id : String
  pub chat_jid : String
  pub sender : String
  pub sender_name : String
  pub content : String
  pub timestamp : String
  pub is_from_me : Bool
  pub is_bot_message : Bool

pub record Session : Type 0 where
  pub group_folder : String
  pub session_id : String
  pub history_path : String
  pub updated_at : String

pub record SubprocessInput : Type 0 where
  pub prompt : String
  pub group_folder : String
  pub chat_jid : String
  pub is_main : Bool
  pub session_id : Option String
  pub is_scheduled_task : Bool
  pub assistant_name : String
