-- ===== src/Scheduler.antt =====
-- secnano/task_scheduler.py: scheduled tasks, when they are due, and what a run of one records.
pub mod Runs
pub mod Queued
use secnano.Prelude.{
  ℕ, ◌+◌, String, Bool, true, false, not, ◌&&◌, Option, none, some, List, [], ◌∷◌, ◌++◌, ◌==◌,
  if◌then◌else◌, is_empty, opt_true, opt_or,
}
use secnano.Types.{ScheduledTask, TaskRunLog, Json, text}
use secnano.Effect.{Result, ok, raised}
use secnano.Db.Tasks.{
  list_scheduled_tasks, upsert_scheduled_task, update_task_last_result, update_task_next_run,
  insert_task_run_log,
}
use secnano.Host.{
  System, Host, Job, run_task, TraceArgs, trace_args, emit_trace, enqueue_task, now_utc,
}

-- What the module asks of `datetime` and `croniter`, on ISO-8601 texts.
-- `add_interval value now` is `now + timedelta(seconds=float(value))`: `none` is a `ValueError`, and
-- `some (raised e)` any other exception. `next_cron value now` is `none` for any exception.
-- `reached next_run now` tells whether `now >= next_run`; `none` is a `ValueError`.
pub record Calendar : Type 0 where
  pub add_interval : String → String → Option (Result String)
  pub next_cron : String → String → Option String
  pub reached : String → String → Option Bool

-- `_queued_task_ids`, a set, beside the host.
pub record Scheduler : Type 0 where
  pub host : Host
  pub queued : List String

unfoldable pub mem_id : String → List String → Bool
mem_id id [] = false
mem_id id (x ∷ xs) = if x == id then true else mem_id id xs

unfoldable pub discard_id : String → List String → List String
discard_id id [] = []
discard_id id (x ∷ xs) = let rest = discard_id id xs in if x == id then rest else x ∷ rest

abbrev pub task_trace : ScheduledTask → String → String → List (String × Json) → TraceArgs
task_trace task stage status details = record (trace_args task.id "scheduled_task" stage status) {
  jid = some task.chat_jid;
  group_folder = some task.group_folder;
  task_id = some task.id;
  details = details;
}

abbrev interval_result : Option (Result String) → Result (Option String)
interval_result none = ok none
interval_result (some (ok t)) = ok (some t)
interval_result (some (raised e)) = raised e

-- The tests of `_is_due` before it reads the clock.
unfoldable pub may_be_due : ScheduledTask → Bool
may_be_due task = (task.status == "active") && opt_true task.next_run

abbrev reached_or_false : Option Bool → Bool
reached_or_false none = false
reached_or_false (some b) = b

module _ (cal : Calendar) where
  unfoldable pub compute_next_run : ScheduledTask → String → Result (Option String)
  compute_next_run task now =
      if task.schedule_type == "once"
      then ok none
      else if task.schedule_type == "interval"
      then interval_result (cal.add_interval task.schedule_value now)
      else if task.schedule_type == "cron"
      then ok (cal.next_cron task.schedule_value now)
      else ok none

  unfoldable pub is_due : ScheduledTask → String → Bool
  unfolding may_be_due
  is_due task now =
      if may_be_due task
      then reached_or_false (cal.reached (opt_or task.next_run "") now)
      else false

-- The row that a finished `once` task is replaced by.
abbrev pub completed_task : ScheduledTask → Option String → String → Option String → ScheduledTask
completed_task task next_run run_at result = record task {
  next_run = next_run;
  last_run = some run_at;
  last_result = result;
  status = "completed";
}

abbrev pub new_status : ScheduledTask → String
new_status task = if task.schedule_type == "once" then "completed" else task.status

module _ (sys : System) (cal : Calendar) where
  -- The `try` around the runner: what is recorded of its result.
  unfoldable pub record_result : ScheduledTask → Result (Option String) → Host → Host
  unfolding emit_trace update_task_last_result
  record_result task (ok result) h =
      emit_trace sys (task_trace task "scheduled_task.completed" "success" [])
        (record h { db = update_task_last_result task.id result h.db })
  record_result task (raised e) h =
      emit_trace sys (task_trace task "scheduled_task.failed" "error" (("error", text e) ∷ [])) h

  abbrev result_of : Result (Option String) → Option String
  result_of (ok result) = result
  result_of (raised e) = none

  abbrev error_of : Result (Option String) → Option String
  error_of (ok result) = none
  error_of (raised e) = some e

  abbrev status_of : Result (Option String) → String
  status_of (ok result) = "success"
  status_of (raised e) = "error"

  abbrev pub run_log : ScheduledTask → String → ℕ → Result (Option String) → TaskRunLog
  run_log task run_at duration_ms outcome = record {
    task_id = task.id;
    run_at = run_at;
    duration_ms = duration_ms;
    status = status_of outcome;
    result = result_of outcome;
    error = error_of outcome;
  }

  -- `update_task_next_run` and, for a task that completes, the upsert.
  unfoldable pub store_next_run :
      ScheduledTask
      → String
      → Option String
      → Result (Option String)
      → Host
      → Result (Unit {0}) × Host
  unfolding update_task_next_run upsert_scheduled_task
  store_next_run task run_at result (raised e) h = (raised e, h)
  store_next_run task run_at result (ok next_run) h =
      let db' = update_task_next_run task.id next_run run_at h.db in
      (
        ok tt,
        record h {
          db =
              if not (new_status task == task.status)
              then upsert_scheduled_task
                  (record (completed_task task next_run run_at result) { status = new_status task })
                  db'
              else db';
        },
      )

  -- What follows the runner.
  unfoldable pub finish_run :
      ScheduledTask → String → ℕ → Result (Option String) → Host → Result (Unit {0}) × Host
  unfolding record_result store_next_run insert_task_run_log emit_trace
  finish_run task run_at duration_ms outcome h =
      let h1 = record_result task outcome h in
      let h2 : Host = record h1 {
        db = insert_task_run_log (run_log task run_at duration_ms outcome) h1.db;
      } in
      let h3 =
        emit_trace sys
          (task_trace task "scheduled_task.logged" (status_of outcome)
            (("run_at", text run_at) ∷ []))
          h2 in
      let (now_dt, h4) = now_utc sys h3 in
      store_next_run task run_at (result_of outcome) (compute_next_run cal task now_dt) h4

  -- `_run_task`: `duration_ms` is the time that the runner took.
  module _ (runner : ScheduledTask → Host → Result (Option String) × Host) (duration_ms : ℕ) where
    abbrev pub started : ScheduledTask → Host → Host
    started task h =
        (now_utc sys (emit_trace sys (task_trace task "scheduled_task.started" "accepted" []) h)).1

    abbrev pub run_at_of : Host → String
    run_at_of h = sys.clock (h.ticks + 1)

    unfoldable pub run_scheduled : ScheduledTask → Host → Result (Unit {0}) × Host
    unfolding finish_run emit_trace
    run_scheduled task h =
        let (outcome, h') = runner task (started task h) in
        finish_run task (run_at_of h) duration_ms outcome h'

    -- `_run_wrapped`: the id is discarded whether the run raises or not.
    unfoldable pub run_wrapped : ScheduledTask → Scheduler → Result (Unit {0}) × Scheduler
    unfolding run_scheduled discard_id
    run_wrapped task s =
        let (outcome, h) = run_scheduled task s.host in
        (outcome, record { host = h; queued = discard_id task.id s.queued })

  -- `[t for t in tasks if _is_due(t)]`, and the clock after it.
  unfoldable pub due_tasks : List ScheduledTask → Host → List ScheduledTask × Host
  unfolding is_due
  due_tasks [] h = ([], h)
  due_tasks (task ∷ tasks) h =
      let now = sys.clock h.ticks in
      let (rest, h') =
        due_tasks tasks (record h { ticks = if may_be_due task then h.ticks + 1 else h.ticks }) in
      (if is_due cal task now then task ∷ rest else rest, h')

  -- One round of the loop over the due tasks, with `_enqueue_due_task` of secnano/main.py.
  unfoldable pub enqueue_due : ScheduledTask → Scheduler → Scheduler
  unfolding emit_trace enqueue_task
  enqueue_due task s =
      let h1 = emit_trace sys (task_trace task "scheduled_task.due" "accepted" []) s.host in
      let h2 = enqueue_task task.chat_jid task.id (run_task task) h1 in
      record {
        host = emit_trace sys (task_trace task "scheduled_task.enqueued" "accepted" []) h2;
        queued = s.queued ++ task.id ∷ [];
      }

  unfoldable pub enqueue_all : List ScheduledTask → ℕ → Scheduler → ℕ × Scheduler
  unfolding enqueue_due mem_id
  enqueue_all [] count s = (count, s)
  enqueue_all (task ∷ tasks) count s =
      let skipped = enqueue_all tasks count s in
      let done = enqueue_all tasks (count + 1) (enqueue_due task s) in
      if mem_id task.id s.queued then skipped else done

  unfoldable pub enqueue_due_tasks_once : Scheduler → ℕ × Scheduler
  unfolding due_tasks enqueue_all list_scheduled_tasks
  enqueue_due_tasks_once s =
      let (due, h) = due_tasks (list_scheduled_tasks (some "active") s.host.db) s.host in
      enqueue_all due 0 (record s { host = h })

  abbrev pub with_next_run :
      ScheduledTask → Result (Option String) → Host → Result ScheduledTask × Host
  unfolding upsert_scheduled_task
  with_next_run task (raised e) h = (raised e, h)
  with_next_run task (ok next_run) h =
      let task' : ScheduledTask = record task { next_run = next_run } in
      (ok task', record h { db = upsert_scheduled_task task' h.db })

  -- `schedule_task`: the id is a fresh UUID.
  unfoldable pub schedule_task :
      String → String → String → String → String → String → Host → Result ScheduledTask × Host
  unfolding compute_next_run upsert_scheduled_task
  schedule_task group_folder chat_jid prompt schedule_type schedule_value context_mode h =
      let task : ScheduledTask = record {
        id = sys.uuid h.uuids;
        group_folder = group_folder;
        chat_jid = chat_jid;
        prompt = prompt;
        schedule_type = schedule_type;
        schedule_value = schedule_value;
        context_mode = context_mode;
        next_run = none;
        last_run = none;
        last_result = none;
        status = "active";
        created_at = sys.clock h.ticks;
      } in
      let h' : Host = record h { ticks = h.ticks + 2; uuids = h.uuids + 1 } in
      with_next_run task (compute_next_run cal task (sys.clock (h.ticks + 1))) h'
