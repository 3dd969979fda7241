-- ===== src/GroupQueue/Progress.antt =====
-- Every queue of secnano/group_queue.py can be emptied by the drains that exist: no enqueue and no
-- outside help is needed, only that the functions of the entries end.
use mathlib.Core.List.{append-nil}
use secnano.Prelude.{
  String, ◌≡◌, refl, sym, ap, ◌∙◌, inl, inr, true, false, List, [], ◌∷◌, ◌++◌, arith, eq_refl,
  Bool-cases,
}
use secnano.GroupQueue.{GroupState, QueueEntry, state_of, state_of-with_state}
use secnano.GroupQueue.EventLoop.{
  EventLoop, remove_one, has, next_entry, start_drain, resume_drain, starts, resumes, Steps, here,
  next,
}
use secnano.GroupQueue.Exclusion.{
  count-has, entries_of, IsConsistent, Step-IsConsistent, Steps-IsConsistent,
}

module _ {F : Type 0} where
  Steps-trans : {l m n : EventLoop F} → Steps l m → Steps m n → Steps l n
  Steps-trans p here = p
  Steps-trans p (next q step) = next (Steps-trans p q) step

  -- Only drains of the group `j` start or resume.
  pub data DrainSteps (j : String) : EventLoop F → EventLoop F → Type 0 where
    rests : (l : EventLoop F) → DrainSteps j l l
    starts_own :
        {m : EventLoop F} (l : EventLoop F)
        → has j l.created ≡ true
        → DrainSteps j (start_drain j l) m
        → DrainSteps j l m
    resumes_own :
        {m : EventLoop F} (l : EventLoop F)
        → has j l.draining ≡ true
        → DrainSteps j (resume_drain j l) m
        → DrainSteps j l m

  DrainSteps-Steps : {j : String} {l m : EventLoop F} → DrainSteps j l m → Steps l m
  DrainSteps-Steps (rests l) = here
  DrainSteps-Steps {j = j} (starts_own l w rest) =
      Steps-trans (next here (starts j l w)) (DrainSteps-Steps rest)
  DrainSteps-Steps {j = j} (resumes_own l w rest) =
      Steps-trans (next here (resumes j l w)) (DrainSteps-Steps rest)

  -- The group has no work left, and nothing was put meanwhile.
  pub record IsDrained (j : String) (l m : EventLoop F) : Type 0 where
    pub steps : DrainSteps j l m
    pub arrived : m.arrived ≡ l.arrived
    pub queue : (state_of j m.groups).queue ≡ []
    pub running : (state_of j m.groups).running ≡ false

  IsDrained-after :
      {j : String} {l m n : EventLoop F}
      → (DrainSteps j m n → DrainSteps j l n)
      → m.arrived ≡ l.arrived
      → IsDrained j m n
      → IsDrained j l n
  IsDrained-after step same d = record {
    steps = step d.steps;
    arrived = d.arrived ∙ same;
    queue = d.queue;
    running = d.running;
  }

  next_entry-arrived :
      (j : String) (queue : List (QueueEntry F)) (s : GroupState F) (l : EventLoop F)
      → (next_entry j queue s l).arrived ≡ l.arrived
  unfolding next_entry
  next_entry-arrived j [] s l = refl
  next_entry-arrived j (e ∷ rest) s l = refl

  next_entry-nil :
      (j : String) (s : GroupState F) (l : EventLoop F)
      → ((state_of j (next_entry j [] s l).groups).queue ≡ [])
        × ((state_of j (next_entry j [] s l).groups).running ≡ false)
  unfolding next_entry
  next_entry-nil j s l =
      let s' : GroupState F = record s { queue = []; running = false; idle_event = true } in
      ground (arith, state_of-with_state j j s' l.groups, eq_refl j)

  next_entry-cons :
      (j : String) (e : QueueEntry F) (rest : List (QueueEntry F)) (s : GroupState F)
      (l : EventLoop F)
      → ((state_of j (next_entry j (e ∷ rest) s l).groups).queue ≡ rest)
        × ((state_of j (next_entry j (e ∷ rest) s l).groups).running ≡ s.running)
  unfolding next_entry
  next_entry-cons j e rest s l =
      let s' : GroupState F = record s { queue = rest } in
      ground (arith, state_of-with_state j j s' l.groups, eq_refl j)

  -- A drain that waits empties its queue.
  drain_out :
      (j : String) (queue : List (QueueEntry F)) (l : EventLoop F)
      → IsConsistent j l
      → (state_of j l.groups).queue ≡ queue
      → (state_of j l.groups).running ≡ true
      → (m : EventLoop F) × IsDrained j l m
  unfolding resume_drain
  drain_out j [] l h q r =
      let w : has j l.draining ≡ true =
        count-has j l.draining (simp (h.one_drain, r) (omega arith)) in
      let m = resume_drain j l in
      let l' : EventLoop F = record l { draining = remove_one j l.draining } in
      let done = next_entry-nil j (state_of j l.groups) l' in
      (
        m,
        record {
          steps = resumes_own l w (rests m);
          arrived = next_entry-arrived j (state_of j l.groups).queue (state_of j l.groups) l';
          queue = simp q done.0;
          running = simp q done.1;
        },
      )
  drain_out j (e ∷ rest) l h q r =
      let w : has j l.draining ≡ true =
        count-has j l.draining (simp (h.one_drain, r) (omega arith)) in
      let m = resume_drain j l in
      let l' : EventLoop F = record l { draining = remove_one j l.draining } in
      let step = resumes j l w in
      let popped = next_entry-cons j e rest (state_of j l.groups) l' in
      let (n, d) =
        drain_out j rest m (Step-IsConsistent j step h) (simp q popped.0) (simp q (popped.1 ∙ r)) in
      (
        n,
        IsDrained-after (resumes_own l w)
            (next_entry-arrived j (state_of j l.groups).queue (state_of j l.groups) l') d,
      )

  -- A created drain that starts while none runs takes the first entry, or ends.
  start_free :
      (j : String) (queue : List (QueueEntry F)) (l : EventLoop F)
      → IsConsistent j l
      → (state_of j l.groups).queue ≡ queue
      → (state_of j l.groups).running ≡ false
      → (m : EventLoop F) × IsDrained j l m
  unfolding start_drain
  start_free j [] l h q r = (l, record { steps = rests l; arrived = refl; queue = q; running = r })
  start_free j (e ∷ rest) l h q r =
      let w : has j l.created ≡ true =
        count-has j l.created (ground (arith, h.no_lost, h.one_drain)) in
      let m = start_drain j l in
      let s : GroupState F = record (state_of j l.groups) { running = true; idle_event = false } in
      let l' : EventLoop F = record l { created = remove_one j l.created } in
      let step = starts j l w in
      let popped = next_entry-cons j e rest s l' in
      let same : m ≡ next_entry j (e ∷ rest) s l' = simp (r, q) in
      let (n, d) =
        drain_out j rest m (Step-IsConsistent j step h)
          (ap (λ (x : EventLoop F). (state_of j x.groups).queue) same ∙ popped.0)
          (ap (λ (x : EventLoop F). (state_of j x.groups).running) same ∙ popped.1) in
      (
        n,
        IsDrained-after (starts_own l w)
            (ap (λ (x : EventLoop F). x.arrived) same ∙ next_entry-arrived j (e ∷ rest) s l') d,
      )

  drained : (j : String) (l : EventLoop F) → IsConsistent j l → (m : EventLoop F) × IsDrained j l m
  drained j l h = elim (Bool-cases (state_of j l.groups).running) [
    | inl r ↦ drain_out j (state_of j l.groups).queue l h refl r
    | inr r ↦ start_free j (state_of j l.groups).queue l h refl r
  ]

-- From a consistent loop the group's drains alone reach a loop in which its queue is empty, its idle
-- event is set, and every entry put so far was started, once and in the order of arrival.
pub drains_complete :
    {F : Type 0} (j : String) (l : EventLoop F)
    → IsConsistent j l
    → (m : EventLoop F) × IsDrained j l m
      × ((state_of j m.groups).idle_event ≡ true)
      × (entries_of j m.started ≡ entries_of j l.arrived)
drains_complete j l h =
    let (m, d) = drained j l h in
    let h' = Steps-IsConsistent j (DrainSteps-Steps d.steps) h in
    (
      m,
      d,
      h'.idle ∙ rw d.running,
      sym (
          ap (entries_of j) (sym d.arrived)
          ∙ h'.fifo
          ∙ ap (λ q. entries_of j m.started ++ q) d.queue
          ∙ append-nil (entries_of j m.started)),
    )
