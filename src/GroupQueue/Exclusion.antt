-- ===== src/GroupQueue/Exclusion.antt =====
-- The invariant of the drains of secnano/group_queue.py: one drain at a time for each group, no
-- entry left behind, and entries started in the order in which they were put.
use mathlib.Core.List.{append_assoc}
use mathlib.Core.Path.{subst}
use secnano.Prelude.{
  ℕ, suc, ◌+◌, ◌-◌, ◌<◌, String, ◌≡◌, refl, sym, ◌⊎◌, inl, inr, true, false, not, Option, none,
  some, List, [], ◌∷◌, ◌++◌, arith, ◌==◌, eq_iff, if◌then◌else◌, Bool-cases, eq_refl, ap, ◌∙◌,
}
use secnano.GroupQueue.{
  GroupQueue, GroupState, QueueEntry, Process, state_of, with_state, state_of-with_state,
  register_process, notify_idle, send_message, close_stdin, find_state,
}
use secnano.GroupQueue.EventLoop.{
  EventLoop, remove_one, has, enqueue, next_entry, start_drain, resume_drain, Step, enqueues,
  starts, resumes, registers, notifies, sends, closes, Steps, here, next, empty_loop,
}

unfoldable pub count : String → List String → ℕ
count jid [] = 0
count jid (x ∷ xs) = if x == jid then suc (count jid xs) else count jid xs

pub count-snoc :
    (j k : String) (xs : List String)
    → count j (xs ++ k ∷ []) ≡ (if k == j then count j xs + 1 else count j xs)
unfolding count
count-snoc j k [] = ground arith
count-snoc j k (x ∷ xs) = ground (arith, count-snoc j k xs)

pub count-remove_one :
    (j k : String) (xs : List String)
    → count j (remove_one k xs) ≡ (if k == j then count j xs - 1 else count j xs)
unfolding count remove_one
count-remove_one j k [] = ground arith
count-remove_one j k (x ∷ xs) =
    ground (arith, count-remove_one j k xs, eq_iff x k, eq_iff x j, eq_iff k j)

pub has-count : (j : String) (xs : List String) → has j xs ≡ true → 0 < count j xs
unfolding has count
has-count j [] h = cc
has-count j (x ∷ xs) h = ground (arith, has-count j xs)

pub count-has : (j : String) (xs : List String) → 0 < count j xs → has j xs ≡ true
unfolding has count
count-has j [] h = absurd (omega arith)
count-has j (x ∷ xs) h = ground (arith, count-has j xs)

module _ {F : Type 0} where
  -- The entries of one group in a history.
  unfoldable pub entries_of : String → List (String × QueueEntry F) → List (QueueEntry F)
  entries_of jid [] = []
  entries_of jid ((j, e) ∷ l) = let rest = entries_of jid l in if j == jid then e ∷ rest else rest

  pub entries_of-snoc :
      (j k : String) (e : QueueEntry F) (l : List (String × QueueEntry F))
      → entries_of j (l ++ (k, e) ∷ [])
        ≡ (if k == j then entries_of j l ++ e ∷ [] else entries_of j l)
  unfolding entries_of
  entries_of-snoc j k e [] = ground arith
  entries_of-snoc j k e ((i, x) ∷ l) = ground (arith, entries_of-snoc j k e l)

  -- What holds of the group `j` between two pieces.
  pub record IsConsistent (j : String) (l : EventLoop F) : Type 0 where
    pub one_drain : count j l.draining ≡ (if (state_of j l.groups).running then 1 else 0)
    pub idle : (state_of j l.groups).idle_event ≡ not (state_of j l.groups).running
    pub no_lost : ((state_of j l.groups).queue ≡ []) ⊎ (0 < count j l.created + count j l.draining)
    pub fifo : entries_of j l.arrived ≡ entries_of j l.started ++ (state_of j l.groups).queue

  pub IsConsistent-empty_loop :
      (j : String) (fn : Option (String → F)) → IsConsistent j (empty_loop fn)
  unfolding state_of find_state count entries_of
  IsConsistent-empty_loop j fn = record {
    one_drain = refl;
    idle = refl;
    no_lost = inl refl;
    fifo = refl;
  }

  enqueue-IsConsistent :
      (j k task_id : String) (fn : F) (l : EventLoop F)
      → IsConsistent j l
      → IsConsistent j (enqueue k task_id fn l)
  unfolding enqueue
  enqueue-IsConsistent j k task_id fn l h =
      let s = state_of k l.groups in
      let entry : QueueEntry F = record { task_id = task_id; fn = fn } in
      let s' : GroupState F = record s { queue = s.queue ++ entry ∷ [] } in
      ground (
        arith,
        state_of-with_state k j s' l.groups,
        eq_iff k j,
        count-snoc j k l.created,
        entries_of-snoc j k entry l.arrived,
        append_assoc (entries_of j l.started) s.queue (entry ∷ []),
      )

  -- The loop's test, entered with the flag set, when no drain of the group waits.
  next_entry-IsConsistent_self :
      (j : String) (queue : List (QueueEntry F)) (s : GroupState F) (l : EventLoop F)
      → s.running ≡ true
      → s.idle_event ≡ false
      → count j l.draining ≡ 0
      → entries_of j l.arrived ≡ entries_of j l.started ++ queue
      → IsConsistent j (next_entry j queue s l)
  unfolding next_entry
  next_entry-IsConsistent_self j [] s l r i d f =
      let s' : GroupState F = record s { queue = []; running = false; idle_event = true } in
      ground (arith, state_of-with_state j j s' l.groups, eq_refl j)
  next_entry-IsConsistent_self j (e ∷ rest) s l r i d f =
      let s' : GroupState F = record s { queue = rest } in
      ground (
        arith,
        state_of-with_state j j s' l.groups,
        eq_refl j,
        count-snoc j j l.draining,
        entries_of-snoc j j e l.started,
        append_assoc (entries_of j l.started) (e ∷ []) rest,
      )

  next_entry-IsConsistent_other :
      (j k : String) (queue : List (QueueEntry F)) (s : GroupState F) (l : EventLoop F)
      → (k == j) ≡ false
      → IsConsistent j l
      → IsConsistent j (next_entry k queue s l)
  unfolding next_entry
  next_entry-IsConsistent_other j k [] s l n h =
      let s' : GroupState F = record s { queue = []; running = false; idle_event = true } in
      ground (arith, state_of-with_state k j s' l.groups)
  next_entry-IsConsistent_other j k (e ∷ rest) s l n h =
      let s' : GroupState F = record s { queue = rest } in
      ground (
        arith,
        state_of-with_state k j s' l.groups,
        count-snoc j k l.draining,
        entries_of-snoc j k e l.started,
      )

  -- Pieces of one group's drains do not touch another group.
  created-IsConsistent_other :
      (j k : String) (l : EventLoop F)
      → (k == j) ≡ false
      → IsConsistent j l
      → IsConsistent j (record l { created = remove_one k l.created })
  created-IsConsistent_other j k l n h = ground (arith, count-remove_one j k l.created)

  draining-IsConsistent_other :
      (j k : String) (l : EventLoop F)
      → (k == j) ≡ false
      → IsConsistent j l
      → IsConsistent j (record l { draining = remove_one k l.draining })
  draining-IsConsistent_other j k l n h = ground (arith, count-remove_one j k l.draining)

  -- A second drain of a group finds `running` set and ends.
  return-IsConsistent :
      (j k : String) (l : EventLoop F)
      → (state_of k l.groups).running ≡ true
      → IsConsistent j l
      → IsConsistent j (record l {
        created = remove_one k l.created;
        groups = with_state k (state_of k l.groups) l.groups;
      })
  return-IsConsistent j k l r h = ground (
    arith,
    state_of-with_state k j (state_of k l.groups) l.groups,
    eq_iff k j,
    count-remove_one j k l.created,
  )

  start_drain-IsConsistent :
      (j k : String) (l : EventLoop F) → IsConsistent j l → IsConsistent j (start_drain k l)
  unfolding start_drain
  start_drain-IsConsistent j k l h = elim (Bool-cases (state_of k l.groups).running) [
    | inl busy ↦ simp busy (return-IsConsistent j k l busy h)
    | inr free ↦
        let s = state_of k l.groups in
        let s' : GroupState F = record s { running = true; idle_event = false } in
        let l' : EventLoop F = record l { created = remove_one k l.created } in
        rw free (elim (Bool-cases (k == j)) [
          | inl same ↦
              let e : k ≡ j = (eq_iff k j).0 same in
              subst
                (λ x. IsConsistent j (
                  next_entry x (state_of x l.groups).queue
                    (record (state_of x l.groups) { running = true; idle_event = false })
                    (record l { created = remove_one x l.created })))
                (sym e)
                (next_entry-IsConsistent_self j (state_of j l.groups).queue
                  (record (state_of j l.groups) { running = true; idle_event = false })
                  (record l { created = remove_one j l.created }) refl refl
                  (h.one_drain ∙ rw (ap (λ x. (state_of x l.groups).running) (sym e) ∙ free))
                  h.fifo)
          | inr other ↦
              next_entry-IsConsistent_other j k s.queue s' l' other
                (created-IsConsistent_other j k l other h)
        ])
  ]

  resume_drain-IsConsistent :
      (j k : String) (l : EventLoop F)
      → has k l.draining ≡ true
      → IsConsistent j l
      → IsConsistent j (resume_drain k l)
  unfolding resume_drain
  resume_drain-IsConsistent j k l w h = elim (Bool-cases (k == j)) [
    | inl same ↦
        let e : j ≡ k = sym ((eq_iff k j).0 same) in
        let h' : IsConsistent k l = subst (λ x. IsConsistent x l) e h in
        subst (λ x. IsConsistent x (resume_drain k l)) (sym e)
          (next_entry-IsConsistent_self k (state_of k l.groups).queue (state_of k l.groups)
            (record l { draining = remove_one k l.draining })
            (ground (arith, has-count k l.draining, h'.one_drain))
            (ground (arith, has-count k l.draining, h'.one_drain, h'.idle))
            (ground (arith, count-remove_one k k l.draining, eq_refl k, h'.one_drain)) h'.fifo)
    | inr other ↦
        next_entry-IsConsistent_other j k (state_of k l.groups).queue (state_of k l.groups)
          (record l { draining = remove_one k l.draining }) other
          (draining-IsConsistent_other j k l other h)
  ]

  -- The other operations leave the queue and the two flags of every group as they are.
  abbrev SameDrain : GroupState F → GroupState F → Type 0
  SameDrain s t = (s.queue ≡ t.queue) × (s.running ≡ t.running) × (s.idle_event ≡ t.idle_event)

  register_process-SameDrain :
      (j k : String) (proc : Process) (name folder : String) (q : GroupQueue F)
      → SameDrain (state_of j (register_process k proc name folder q)) (state_of j q)
  unfolding register_process
  register_process-SameDrain j k proc name folder q =
      let s : GroupState F = record (state_of k q) {
        current_proc = some proc;
        subprocess_name = some name;
        group_folder = some folder;
      } in
      ground (arith, state_of-with_state k j s q, eq_iff k j)

  notify_idle-SameDrain :
      (j k : String) (q : GroupQueue F) → SameDrain (state_of j (notify_idle k q)) (state_of j q)
  unfolding notify_idle
  notify_idle-SameDrain j k q =
      let s : GroupState F = record (state_of k q) {
        current_proc = none;
        subprocess_name = none;
      } in
      ground (arith, state_of-with_state k j s q, eq_iff k j)

  touch-SameDrain :
      (j k : String) (q : GroupQueue F)
      → SameDrain (state_of j (with_state k (state_of k q) q)) (state_of j q)
  touch-SameDrain j k q = ground (arith, state_of-with_state k j (state_of k q) q, eq_iff k j)

  same-IsConsistent :
      (j : String) (q : GroupQueue F) (l : EventLoop F)
      → SameDrain (state_of j q) (state_of j l.groups)
      → IsConsistent j l
      → IsConsistent j (record l { groups = q })
  same-IsConsistent j q l (same_queue, same_running, same_idle) h = record {
    one_drain = simp same_running h.one_drain;
    idle = simp (same_idle, same_running) h.idle;
    no_lost = simp same_queue h.no_lost;
    fifo = simp same_queue h.fifo;
  }

  pub Step-IsConsistent :
      (j : String) {l m : EventLoop F} → Step l m → IsConsistent j l → IsConsistent j m
  unfolding send_message close_stdin
  Step-IsConsistent j (enqueues k task_id fn l) h = enqueue-IsConsistent j k task_id fn l h
  Step-IsConsistent j (starts k l w) h = start_drain-IsConsistent j k l h
  Step-IsConsistent j (resumes k l w) h = resume_drain-IsConsistent j k l w h
  Step-IsConsistent j (registers k proc name folder l) h =
      same-IsConsistent j (register_process k proc name folder l.groups) l
        (register_process-SameDrain j k proc name folder l.groups) h
  Step-IsConsistent j (notifies k l) h =
      same-IsConsistent j (notify_idle k l.groups) l (notify_idle-SameDrain j k l.groups) h
  Step-IsConsistent j (sends k filename text l) h =
      same-IsConsistent j _ l (touch-SameDrain j k l.groups) h
  Step-IsConsistent j (closes k l) h = same-IsConsistent j _ l (touch-SameDrain j k l.groups) h

-- In every schedule from a consistent loop, for every group: at most one drain waits, exactly while
-- `running` is set; the idle event is set exactly while it is not; entries are in the queue only
-- while a drain waits or is about to start; and the entries put are, in order, those started and
-- then those in the queue.
pub Steps-IsConsistent :
    {F : Type 0} (j : String) {l m : EventLoop F} → Steps l m → IsConsistent j l → IsConsistent j m
Steps-IsConsistent j here h = h
Steps-IsConsistent j (next steps step) h = Step-IsConsistent j step (Steps-IsConsistent j steps h)
