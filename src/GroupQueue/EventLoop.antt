-- ===== src/GroupQueue/EventLoop.antt =====
-- `_enqueue` and `_drain` of secnano/group_queue.py under the asyncio event loop. Code between two
-- awaits that can wait runs whole, so a drain has two kinds of pieces: from its start, or from the
-- end of an `await entry.fn()`, up to the next `await entry.fn()` or to its end.
use secnano.Prelude.{
  String, Bool, true, false, Option, none, some, List, [], ◌∷◌, ◌++◌, ◌==◌, if◌then◌else◌, ◌≡◌,
}
use secnano.GroupQueue.{
  GroupQueue, GroupState, QueueEntry, Process, state_of, with_state, register_process, notify_idle,
  send_message, close_stdin,
}

-- `created` has the group of each drain task that was made and has not started, `draining` that of
-- each drain that waits for its entry's function. `arrived` and `started` are histories: the
-- entries that were put and those whose function was called.
pub record EventLoop (F : Type 0) : Type 0 where
  pub groups : GroupQueue F
  pub created : List String
  pub draining : List String
  pub arrived : List (String × QueueEntry F)
  pub started : List (String × QueueEntry F)

unfoldable pub remove_one : String → List String → List String
remove_one jid [] = []
remove_one jid (x ∷ xs) = let rest = remove_one jid xs in if x == jid then xs else x ∷ rest

unfoldable pub has : String → List String → Bool
has jid [] = false
has jid (x ∷ xs) = if x == jid then true else has jid xs

module _ {F : Type 0} where
  -- `queue.put` on an unbounded queue does not wait.
  unfoldable pub enqueue : String → String → F → EventLoop F → EventLoop F
  enqueue jid task_id fn l =
      let s = state_of jid l.groups in
      let entry : QueueEntry F = record { task_id = task_id; fn = fn } in
      record l {
        groups = with_state jid (record s { queue = s.queue ++ entry ∷ [] }) l.groups;
        created = if s.running then l.created else l.created ++ jid ∷ [];
        arrived = l.arrived ++ (jid, entry) ∷ [];
      }

  -- The `while not state.queue.empty()` test and, behind the loop, the `finally`.
  unfoldable pub next_entry :
      String → List (QueueEntry F) → GroupState F → EventLoop F → EventLoop F
  next_entry jid [] s l = record l {
    groups = with_state jid (record s { queue = []; running = false; idle_event = true }) l.groups;
  }
  next_entry jid (entry ∷ rest) s l = record l {
    groups = with_state jid (record s { queue = rest }) l.groups;
    draining = l.draining ++ jid ∷ [];
    started = l.started ++ (jid, entry) ∷ [];
  }

  unfoldable pub start_drain : String → EventLoop F → EventLoop F
  unfolding next_entry remove_one
  start_drain jid l =
      let s = state_of jid l.groups in
      let l' : EventLoop F = record l { created = remove_one jid l.created } in
      if s.running
      then record l' { groups = with_state jid s l.groups }
      else next_entry jid s.queue (record s { running = true; idle_event = false }) l'

  -- The function returned or raised; both go on with `task_done` and the loop's test.
  unfoldable pub resume_drain : String → EventLoop F → EventLoop F
  unfolding next_entry remove_one
  resume_drain jid l =
      let s = state_of jid l.groups in
      next_entry jid s.queue s (record l { draining = remove_one jid l.draining })

  -- `enqueue_message_check`: without a callback the check is dropped. `task_id` is a fresh UUID.
  unfoldable pub enqueue_message_check : String → String → EventLoop F → EventLoop F
  unfolding enqueue
  enqueue_message_check jid task_id l = elim l.groups.process_messages_fn [
    | none ↦ l
    | some fn ↦ enqueue jid task_id (fn jid) l
  ]

  -- What can happen next. The scheduler picks any drain that is ready.
  pub data Step : EventLoop F → EventLoop F → Type 0 where
    enqueues : (jid task_id : String) (fn : F) (l : EventLoop F) → Step l (enqueue jid task_id fn l)
    starts :
        (jid : String) (l : EventLoop F) → has jid l.created ≡ true → Step l (start_drain jid l)
    resumes :
        (jid : String) (l : EventLoop F) → has jid l.draining ≡ true → Step l (resume_drain jid l)
    registers :
        (jid : String) (proc : Process) (name folder : String) (l : EventLoop F)
        → Step l (record l { groups = register_process jid proc name folder l.groups })
    notifies :
        (jid : String) (l : EventLoop F) → Step l (record l { groups = notify_idle jid l.groups })
    sends :
        (jid filename text : String) (l : EventLoop F)
        → Step l (record l { groups = (send_message jid filename text l.groups).0 })
    closes :
        (jid : String) (l : EventLoop F)
        → Step l (record l { groups = (close_stdin jid l.groups).0 })

  pub data Steps (l : EventLoop F) : EventLoop F → Type 0 where
    here : Steps l l
    next : {m n : EventLoop F} → Steps l m → Step m n → Steps l n

  -- `GroupQueue()` in a loop with no drain.
  abbrev pub empty_loop : Option (String → F) → EventLoop F
  empty_loop fn = record {
    groups = record { states = []; process_messages_fn = fn };
    created = [];
    draining = [];
    arrived = [];
    started = [];
  }
