-- ===== src/Scheduler/Queued.antt =====
-- The set `_queued_task_ids` of secnano/task_scheduler.py: no task waits twice.
use mathlib.Core.List.{append_assoc, append-nil}
use secnano.Prelude.{
  ℕ, ◌+◌, String, ◌≡◌, refl, sym, ap, ◌∙◌, true, false, some, List, [], ◌∷◌, ◌++◌, arith, ◌==◌,
  eq_iff, if◌then◌else◌, length, map, Bool-cases, inl, inr,
}
use secnano.Types.{ScheduledTask}
use secnano.Db.Tasks.{list_scheduled_tasks}
use secnano.Host.{System, Host, Enqueued, run_task}
use secnano.Scheduler.{
  Calendar, Scheduler, mem_id, enqueue_due, enqueue_all, due_tasks, enqueue_due_tasks_once,
}

abbrev pub ids : List ScheduledTask → List String
ids = map (λ (t : ScheduledTask). t.id)

-- No id stands twice.
abbrev pub DistinctIds : List String → Type 0
DistinctIds [] = Unit
DistinctIds (x ∷ xs) = (mem_id x xs ≡ false) × DistinctIds xs

-- The call that hands a due task to the queue of its chat.
abbrev pub call_of : ScheduledTask → Enqueued
call_of t = record { group_jid = t.chat_jid; task_id = t.id; job = run_task t }

mem_id-snoc :
    (k x : String) (xs : List String)
    → mem_id k (xs ++ x ∷ []) ≡ (if mem_id k xs then true else x == k)
unfolding mem_id
mem_id-snoc k x [] = ground arith
mem_id-snoc k x (y ∷ xs) = ground (arith, mem_id-snoc k x xs)

DistinctIds-snoc :
    (x : String) (xs : List String)
    → mem_id x xs ≡ false
    → DistinctIds xs
    → DistinctIds (xs ++ x ∷ [])
unfolding mem_id
DistinctIds-snoc x [] h d = (refl, tt)
DistinctIds-snoc x (y ∷ xs) h d = (
  ground (arith, mem_id-snoc y x xs, eq_iff x y, eq_iff y x, d.0),
  DistinctIds-snoc x xs (ground arith) d.1,
)

module _ (sys : System) (cal : Calendar) where
  -- What a round over the tasks `due` adds: `new`, once each.
  pub record IsRound (s : Scheduler) (count : ℕ) (r : ℕ × Scheduler) (new : List ScheduledTask)
      : Type 0 where
    pub queued : r.1.queued ≡ s.queued ++ ids new
    pub distinct : DistinctIds r.1.queued
    pub enqueued : r.1.host.enqueued ≡ s.host.enqueued ++ map call_of new
    pub counted : r.0 ≡ count + length new

  enqueue_due-fields :
      (t : ScheduledTask) (s : Scheduler)
      → ((enqueue_due sys cal t s).queued ≡ s.queued ++ t.id ∷ [])
        × ((enqueue_due sys cal t s).host.enqueued ≡ s.host.enqueued ++ call_of t ∷ [])
  unfolding enqueue_due
  enqueue_due-fields t s = (refl, refl)

  enqueue_all-IsRound :
      (due : List ScheduledTask) (count : ℕ) (s : Scheduler)
      → DistinctIds s.queued
      → (new : List ScheduledTask) × IsRound s count (enqueue_all sys cal due count s) new
  unfolding enqueue_all
  enqueue_all-IsRound [] count s d = (
    [],
    record {
      queued = sym (append-nil s.queued);
      distinct = d;
      enqueued = sym (append-nil s.host.enqueued);
      counted = omega arith;
    },
  )
  enqueue_all-IsRound (t ∷ due) count s d = elim (Bool-cases (mem_id t.id s.queued)) [
    | inl old ↦ rw old (enqueue_all-IsRound due count s d)
    | inr fresh ↦
        let s' = enqueue_due sys cal t s in
        let (q, e) = enqueue_due-fields t s in
        let (new, r) =
          enqueue_all-IsRound due (count + 1) s' (rw q (DistinctIds-snoc t.id s.queued fresh d)) in
        rw fresh (
          t ∷ new,
          record {
            queued =
                r.queued ∙ ap (λ l. l ++ ids new) q ∙ append_assoc s.queued (t.id ∷ []) (ids new);
            distinct = r.distinct;
            enqueued =
                r.enqueued
                ∙ ap (λ l. l ++ map call_of new) e
                ∙ append_assoc s.host.enqueued (call_of t ∷ []) (map call_of new);
            counted = omega (arith, r.counted);
          },
        )
  ]

  due_tasks-enqueued :
      (tasks : List ScheduledTask) (h : Host) → (due_tasks sys cal tasks h).1.enqueued ≡ h.enqueued
  unfolding due_tasks
  due_tasks-enqueued [] h = refl
  due_tasks-enqueued (t ∷ tasks) h = due_tasks-enqueued tasks _

  -- If no id is queued twice, a poll keeps it so. There are tasks `new` that it hands to the queues of
  -- their chats, in order and behind what was enqueued before; their ids are exactly the ids that it
  -- adds to the queued ones, so none of them was queued; and it returns how many they are.
  pub enqueue_due_tasks_once-IsRound :
      (s : Scheduler)
      → DistinctIds s.queued
      → (new : List ScheduledTask) × IsRound s 0 (enqueue_due_tasks_once sys cal s) new
  unfolding enqueue_due_tasks_once
  enqueue_due_tasks_once-IsRound s d =
      let (due, h) = due_tasks sys cal (list_scheduled_tasks (some "active") s.host.db) s.host in
      let same = due_tasks-enqueued (list_scheduled_tasks (some "active") s.host.db) s.host in
      let (new, r) = enqueue_all-IsRound due 0 (record s { host = h }) d in
      (
        new,
        record {
          queued = r.queued;
          distinct = r.distinct;
          enqueued = r.enqueued ∙ ap (λ l. l ++ map call_of new) same;
          counted = r.counted;
        },
      )
