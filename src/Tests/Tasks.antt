-- ===== src/Tests/Tasks.antt =====
-- Runs and polls of a scheduled task.
use secnano.Prelude.{none, String, ◌≡◌, refl, false, Option, some, List, [], ◌∷◌, ◌≢◌}
use secnano.Types.{ScheduledTask}
use secnano.Effect.{Result, ok, raised}
use secnano.Host.{Host}
use secnano.Db.Tasks.{get_scheduled_task}
use secnano.Scheduler.{
  Scheduler, mem_id, is_due, schedule_task, enqueue_due_tasks_once, run_scheduled,
}
use secnano.Scheduler.Runs.{schedule_task_once, run_scheduled_once}
use secnano.Scheduler.Queued.{IsRound, enqueue_due_tasks_once-IsRound}
use secnano.Tests.Data.{test_system, test_host, test_task, test_calendar}

abbrev replies : ScheduledTask → Host → Result (Option String) × Host
replies task h = (ok (some "done"), h)

abbrev fails : ScheduledTask → Host → Result (Option String) × Host
fails task h = (raised "boom", h)

abbrev polled : Scheduler
polled = record {
  host = record test_host { db = record test_host.db { scheduled_tasks = test_task ∷ [] } };
  queued = "s0" ∷ [];
}

open_status : test_task.status ≢ "completed"
open_status e = cc

schedule_task_once_example :
    (task : ScheduledTask) × (get_scheduled_task "u0"
        (schedule_task test_system test_calendar "team" "web:team" "report" "once" "2026-02-01"
          "group" test_host).1.db
      ≡ some task)
    × (task.status ≡ "active")
    × (task.next_run ≡ none)
    × ((now : String) → is_due test_calendar task now ≡ false)
schedule_task_once_example =
    schedule_task_once test_system test_calendar "team" "web:team" "report" "2026-02-01" "group"
      test_host

run_scheduled_once_example :
    ((run_scheduled test_system test_calendar replies 5 test_task test_host).0 ≡ ok tt)
    × ((after : ScheduledTask) × (get_scheduled_task "s1"
            (run_scheduled test_system test_calendar replies 5 test_task test_host).1.db
          ≡ some after)
        × (after.status ≡ "completed")
        × (after.next_run ≡ none)
        × ((now : String) → is_due test_calendar after now ≡ false))
run_scheduled_once_example =
    run_scheduled_once test_system test_calendar replies 5 test_task test_host refl open_status

enqueue_due_tasks_once-IsRound_example :
    (new : List ScheduledTask) × IsRound test_system test_calendar polled 0
      (enqueue_due_tasks_once test_system test_calendar polled)
      new
unfolding mem_id
enqueue_due_tasks_once-IsRound_example =
    enqueue_due_tasks_once-IsRound test_system test_calendar polled (refl, tt)
