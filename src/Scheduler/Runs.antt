-- ===== src/Scheduler/Runs.antt =====
-- What runs of tasks leave behind in secnano/task_scheduler.py.
use secnano.Prelude.{
  ℕ, String, ◌≡◌, ◌≢◌, refl, ◌∙◌, inl, inr, true, false, Option, none, some, arith, ◌==◌, eq_iff,
  eq_refl, Option-cases,
}
use secnano.Types.{ScheduledTask}
use secnano.Effect.{Result, ok}
use secnano.Db.Table.{find_row, find_row-upsert_row, find_row-key}
use secnano.Db.Database.{Database}
use secnano.Db.Tasks.{
  get_scheduled_task, upsert_scheduled_task, update_task_next_run, task_key, set_task,
}
use secnano.Host.{System, Host}
use secnano.Scheduler.{
  Calendar, compute_next_run, is_due, completed_task, started, store_next_run, run_scheduled,
  schedule_task,
}

get-upsert_scheduled_task :
    (task : ScheduledTask) (db : Database)
    → (found : ScheduledTask) × (get_scheduled_task task.id (upsert_scheduled_task task db)
        ≡ some found)
      × (found.status ≡ task.status)
      × (found.next_run ≡ task.next_run)
      × (found.id ≡ task.id)
unfolding get_scheduled_task upsert_scheduled_task
get-upsert_scheduled_task task db =
    let found =
      find_row-upsert_row task_key (set_task task) task task.id db.scheduled_tasks (λ x e. e) in
    elim (Option-cases (find_row task_key task.id db.scheduled_tasks)) [
      | inl absent ↦ (task, found ∙ rw (eq_refl, absent) refl, refl, refl, refl)
      | inr (old, e) ↦ (
        set_task task old,
        found ∙ rw (eq_refl, e) refl,
        refl,
        refl,
        find_row-key task_key task.id db.scheduled_tasks old e,
      )
    ]

-- A task that is scheduled with the type `once` is stored with no next run, and is due at no time.
pub schedule_task_once :
    (sys : System) (cal : Calendar) (group_folder chat_jid prompt value mode : String) (h : Host)
    → (task : ScheduledTask) × (get_scheduled_task
          (sys.uuid h.uuids)
          (schedule_task sys cal group_folder chat_jid prompt "once" value mode h).1.db
        ≡ some task)
      × (task.status ≡ "active")
      × (task.next_run ≡ none)
      × ((now : String) → is_due cal task now ≡ false)
unfolding schedule_task is_due
schedule_task_once sys cal group_folder chat_jid prompt value mode h =
    let fresh : ScheduledTask = record {
      id = sys.uuid h.uuids;
      group_folder = group_folder;
      chat_jid = chat_jid;
      prompt = prompt;
      schedule_type = "once";
      schedule_value = value;
      context_mode = mode;
      next_run = none;
      last_run = none;
      last_result = none;
      status = "active";
      created_at = sys.clock h.ticks;
    } in
    let (task, found, status, next_run, _) = get-upsert_scheduled_task fresh h.db in
    (task, found, status, next_run, λ now. rw (status, next_run) refl)

module _ (sys : System) (cal : Calendar)
    (runner : ScheduledTask → Host → Result (Option String) × Host) (duration_ms : ℕ)
    (task : ScheduledTask) (h : Host) where
  abbrev pub ran : Result (Option String) × Host
  ran = runner task (started sys cal runner duration_ms task h)

  abbrev pub ended : Result (Unit {0}) × Host
  ended = run_scheduled sys cal runner duration_ms task h

  compute_next_run-once :
      (now : String)
      → (task.schedule_type == "once") ≡ true
      → compute_next_run cal task now ≡ ok none
  unfolding compute_next_run
  compute_next_run-once now once = rw once

  abbrev IsCompleted : Result (Unit {0}) × Host → Type 0
  IsCompleted end =
      (end.0 ≡ ok tt)
      × ((after : ScheduledTask) × (get_scheduled_task task.id end.1.db ≡ some after)
          × (after.status ≡ "completed")
          × (after.next_run ≡ none)
          × ((now : String) → is_due cal after now ≡ false))

  store_next_run-IsCompleted :
      (run_at : String) (result : Option String) (next : Result (Option String)) (k : Host)
      → (task.schedule_type == "once") ≡ true
      → task.status ≢ "completed"
      → next ≡ ok none
      → IsCompleted (store_next_run sys cal task run_at result next k)
  unfolding store_next_run is_due
  store_next_run-IsCompleted run_at result next k once open_ e =
      let differs : ("completed" == task.status) ≡ false =
        ground (arith, eq_iff "completed" task.status, open_) in
      let final : ScheduledTask = completed_task task none run_at result in
      let (after, found, status, next_run, _) =
        get-upsert_scheduled_task final (update_task_next_run task.id none run_at k.db) in
      rw e (rw once (rw differs (refl, (after, found, status, next_run, λ now. rw status refl))))

  -- A run of a task of the type `once` that was not completed before ends without an error and with
  -- the task stored as completed and without a next run, whatever the runner did; so it is due at no
  -- time from then on.
  pub run_scheduled_once :
      (task.schedule_type == "once") ≡ true
      → task.status ≢ "completed"
      → (ended.0 ≡ ok tt)
        × ((after : ScheduledTask) × (get_scheduled_task task.id ended.1.db ≡ some after)
            × (after.status ≡ "completed")
            × (after.next_run ≡ none)
            × ((now : String) → is_due cal after now ≡ false))
  unfolding run_scheduled
  run_scheduled_once once open_ =
      store_next_run-IsCompleted _ _ _ _ once open_ (compute_next_run-once _ once)
