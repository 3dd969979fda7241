-- ===== src/Db/Tasks.antt =====
-- The tables `scheduled_tasks` and `task_run_logs` of secnano/db.py.
use secnano.Prelude.{
  ℕ, String, Option, none, some, List, [], ◌∷◌, ◌++◌, take, select, ◌==◌, if◌then◌else◌, is_empty,
}
use secnano.Types.{ScheduledTask, TaskRunLog}
use secnano.Db.Table.{find_row, upsert_row, update_row}
use secnano.Db.Sort.{sort, descending}
use secnano.Db.Database.{Database}

abbrev pub task_key : ScheduledTask → String
task_key t = t.id

-- The SET list of `upsert_scheduled_task`: every column but the key and `created_at`.
abbrev pub set_task : ScheduledTask → ScheduledTask → ScheduledTask
set_task new old = record new { id = old.id; created_at = old.created_at }

unfoldable pub upsert_scheduled_task : ScheduledTask → Database → Database
upsert_scheduled_task task db = record db {
  scheduled_tasks = upsert_row task_key (set_task task) task db.scheduled_tasks;
}

unfoldable pub get_scheduled_task : String → Database → Option ScheduledTask
get_scheduled_task task_id db = find_row task_key task_id db.scheduled_tasks

abbrev with_status : Option String → List ScheduledTask → List ScheduledTask
with_status none tasks = tasks
with_status (some status) tasks =
    if is_empty status then tasks else select (λ (t : ScheduledTask). t.status == status) tasks

unfoldable pub list_scheduled_tasks : Option String → Database → List ScheduledTask
list_scheduled_tasks status db = with_status status db.scheduled_tasks

unfoldable pub update_task_next_run : String → Option String → String → Database → Database
update_task_next_run task_id next_run last_run db = record db {
  scheduled_tasks =
      update_row task_key task_id
        (λ (t : ScheduledTask). record t { next_run = next_run; last_run = some last_run })
        db.scheduled_tasks;
}

unfoldable pub update_task_last_result : String → Option String → Database → Database
update_task_last_result task_id result db = record db {
  scheduled_tasks =
      update_row task_key task_id (λ (t : ScheduledTask). record t { last_result = result })
        db.scheduled_tasks;
}

-- The primary key is AUTOINCREMENT: a new row is the last one.
unfoldable pub insert_task_run_log : TaskRunLog → Database → Database
insert_task_run_log log db = record db { task_run_logs = db.task_run_logs ++ log ∷ [] }

unfoldable pub get_task_run_logs : String → ℕ → Database → List TaskRunLog
get_task_run_logs task_id limit db = take limit (
    sort (descending (λ (l : TaskRunLog). l.run_at))
      (select (λ (l : TaskRunLog). l.task_id == task_id) db.task_run_logs))

unfoldable pub list_recent_task_run_logs : ℕ → Database → List TaskRunLog
list_recent_task_run_logs limit db =
    take limit (sort (descending (λ (l : TaskRunLog). l.run_at)) db.task_run_logs)
