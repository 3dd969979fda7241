-- ===== src/Host.antt =====
-- The state that the handlers of the host share: the database, the trace store, the group
-- directories, and the effects that wait for the event loop. Time and UUIDs come from outside.
use secnano.Prelude.{
  ℕ, ◌+◌, String, Option, none, List, [], ◌∷◌, ◌++◌, if◌then◌else◌, opt_true, opt_or,
}
use secnano.Types.{TraceEvent, RegisteredGroup, ScheduledTask, Json}
use secnano.Db.Database.{Database}
use secnano.Db.Traces.{insert_trace_event}
use secnano.Trace.{TraceStore, append_recent}

-- What each reading of the clock, `datetime.now(UTC).isoformat()`, and each `uuid4()` gives.
pub record System : Type 0 where
  pub clock : ℕ → String
  pub uuid : ℕ → String

-- The coroutine functions that the host hands to `GroupQueue.enqueue_task`: the closure of
-- `handle_new_message`, and that of a due scheduled task.
pub data Job : Type 0 where
  process_messages : RegisteredGroup → (trace_id : String) → Job
  run_task : ScheduledTask → Job

pub record Enqueued : Type 0 where
  pub group_jid : String
  pub task_id : String
  pub job : Job

-- `ticks` and `uuids` count the readings so far; `enqueued` are the calls of `enqueue_task`.
pub record Host : Type 0 where
  pub db : Database
  pub store : TraceStore
  pub group_dirs : List String
  pub enqueued : List Enqueued
  pub ticks : ℕ
  pub uuids : ℕ

-- `_ensure_group_dirs`: the directories of a group exist from here on.
unfoldable pub ensure_group_dirs : String → Host → Host
ensure_group_dirs folder h = record h { group_dirs = h.group_dirs ++ folder ∷ [] }

-- The arguments of `_emit_trace`.
pub record TraceArgs : Type 0 where
  pub trace_id : String
  pub category : String
  pub stage : String
  pub status : String
  pub jid : Option String
  pub group_folder : Option String
  pub task_id : Option String
  pub run_id : Option String
  pub source : Option String
  pub details : List (String × Json)

-- A call that leaves the keyword arguments with a default out.
abbrev pub trace_args : String → String → String → String → TraceArgs
trace_args trace_id category stage status = record {
  trace_id = trace_id;
  category = category;
  stage = stage;
  status = status;
  jid = none;
  group_folder = none;
  task_id = none;
  run_id = none;
  source = none;
  details = [];
}

unfoldable pub enqueue_task : String → String → Job → Host → Host
enqueue_task group_jid task_id job h = record h {
  enqueued = h.enqueued ++ record { group_jid = group_jid; task_id = task_id; job = job } ∷ [];
}

module _ (sys : System) where
  -- The next reading of the clock, and the host after it.
  abbrev pub now_utc : Host → String × Host
  now_utc h = (sys.clock h.ticks, record h { ticks = h.ticks + 1 })

  abbrev pub uuid4 : Host → String × Host
  uuid4 h = (sys.uuid h.uuids, record h { uuids = h.uuids + 1 })

  -- `timestamp or now_utc()`: the clock is read only if there is no timestamp.
  abbrev pub or_now : Option String → Host → String × Host
  or_now timestamp h = (
    opt_or timestamp (sys.clock h.ticks),
    record h { ticks = if opt_true timestamp then h.ticks else h.ticks + 1 },
  )

  abbrev pub trace_event : TraceArgs → Host → TraceEvent
  trace_event a h = record {
    event_id = sys.uuid h.uuids;
    trace_id = a.trace_id;
    timestamp = sys.clock h.ticks;
    category = a.category;
    stage = a.stage;
    status = a.status;
    jid = a.jid;
    group_folder = a.group_folder;
    task_id = a.task_id;
    run_id = a.run_id;
    source = a.source;
    details = a.details;
  }

  unfoldable pub emit_trace : TraceArgs → Host → Host
  unfolding insert_trace_event append_recent
  emit_trace a h =
      let event = trace_event a h in
      record h {
        db = insert_trace_event event h.db;
        store = append_recent event h.store;
        ticks = h.ticks + 1;
        uuids = h.uuids + 1;
      }
