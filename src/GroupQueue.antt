-- ===== src/GroupQueue.antt =====
-- secnano/group_queue.py: the class `GroupQueue`. A queued coroutine function is a value of `F`.
-- The event loop, which interleaves the drains, is in `GroupQueue/EventLoop.antt`.
pub mod EventLoop
pub mod Exclusion
pub mod Progress
pub mod Processes
pub mod Paths
use secnano.Prelude.{
  ℕ, String, ◌≡◌, refl, Bool, true, false, Option, none, some, List, [], ◌∷◌, arith, ◌==◌, eq_iff,
  if◌then◌else◌, opt_true, opt_or, is_some, length, map, select,
}
use secnano.Db.Sort.{sort, ascending}

-- `negsuc n` is -(n + 1): a process killed by a signal has a negative return code.
pub data ℤ : Type 0 where
  pos : ℕ → ℤ
  negsuc : ℕ → ℤ

pub record Process : Type 0 where
  pub pid : ℕ
  pub returncode : Option ℤ

pub record QueueEntry (F : Type 0) : Type 0 where
  pub task_id : String
  pub fn : F

pub record GroupState (F : Type 0) : Type 0 where
  pub queue : List (QueueEntry F)
  pub running : Bool
  pub current_proc : Option Process
  pub subprocess_name : Option String
  pub group_folder : Option String
  pub idle_event : Bool

-- `_states`, in insertion order, and the callback that makes the work of a message check.
pub record GroupQueue (F : Type 0) : Type 0 where
  pub states : List (String × GroupState F)
  pub process_messages_fn : Option (String → F)

-- A file in `data/ipc/{folder}/input/`: a JSON object with one member, or the empty sentinel.
pub data IpcInput : Type 0 where
  message : (folder filename content : String) → IpcInput
  close_sentinel : (folder : String) → IpcInput

abbrev is_live : Option Process → Bool
is_live none = false
is_live (some p) = elim p.returncode [ none ↦ true | some code ↦ false ]

pub record SnapshotItem : Type 0 where
  pub jid : String
  pub group_folder : Option String
  pub running : Bool
  pub queue_size : ℕ
  pub subprocess_name : Option String
  pub pid : Option ℕ
  pub returncode : Option ℤ

abbrev pid_of : Option Process → Option ℕ
pid_of none = none
pid_of (some p) = some p.pid

abbrev returncode_of : Option Process → Option ℤ
returncode_of none = none
returncode_of (some p) = p.returncode

module _ {F : Type 0} where
  abbrev pub fresh_state : GroupState F
  fresh_state = record {
    queue = [];
    running = false;
    current_proc = none;
    subprocess_name = none;
    group_folder = none;
    idle_event = true;
  }

  unfoldable pub find_state : String → List (String × GroupState F) → GroupState F
  find_state jid [] = fresh_state
  find_state jid ((j, s) ∷ rest) = if j == jid then s else find_state jid rest

  unfoldable pub put_state :
      String → GroupState F → List (String × GroupState F) → List (String × GroupState F)
  put_state jid s [] = (jid, s) ∷ []
  put_state jid s ((j, t) ∷ rest) =
      let others = put_state jid s rest in if j == jid then (jid, s) ∷ rest else (j, t) ∷ others

  -- `_state(jid)`: the state, a fresh one if the group is new.
  unfoldable pub state_of : String → GroupQueue F → GroupState F
  unfolding find_state
  state_of jid q = find_state jid q.states

  -- The state object after it was mutated.
  unfoldable pub with_state : String → GroupState F → GroupQueue F → GroupQueue F
  unfolding put_state
  with_state jid s q = record q { states = put_state jid s q.states }

  find_state-put_state :
      (k j : String) (s : GroupState F) (l : List (String × GroupState F))
      → find_state j (put_state k s l) ≡ (if k == j then s else find_state j l)
  unfolding find_state put_state
  find_state-put_state k j s [] = refl
  find_state-put_state k j s ((i, t) ∷ l) =
      ground (arith, eq_iff k j, eq_iff i k, eq_iff i j, find_state-put_state k j s l)

  pub state_of-with_state :
      (k j : String) (s : GroupState F) (q : GroupQueue F)
      → state_of j (with_state k s q) ≡ (if k == j then s else state_of j q)
  unfolding state_of with_state
  state_of-with_state k j s q = find_state-put_state k j s q.states

  unfoldable pub register_process : String → Process → String → String → GroupQueue F → GroupQueue F
  unfolding state_of with_state
  register_process jid proc name folder q =
      with_state jid
        (record (state_of jid q) {
          current_proc = some proc;
          subprocess_name = some name;
          group_folder = some folder;
        })
        q

  unfoldable pub notify_idle : String → GroupQueue F → GroupQueue F
  unfolding state_of with_state
  notify_idle jid q =
      with_state jid (record (state_of jid q) { current_proc = none; subprocess_name = none }) q

  abbrev folder_text : GroupState F → String
  folder_text s = opt_or s.group_folder ""

  -- The name of the file is made of the time and a random part: `filename` is given.
  unfoldable pub send_message :
      String → String → String → GroupQueue F → GroupQueue F × Option IpcInput
  unfolding state_of with_state
  send_message jid filename text q =
      let s = state_of jid q in
      (
        with_state jid s q,
        if opt_true s.group_folder then some (message (folder_text s) filename text) else none,
      )

  unfoldable pub close_stdin : String → GroupQueue F → GroupQueue F × Option IpcInput
  unfolding state_of with_state
  close_stdin jid q =
      let s = state_of jid q in
      (
        with_state jid s q,
        if opt_true s.group_folder then some (close_sentinel (folder_text s)) else none,
      )

  abbrev live_entry : String × GroupState F → Bool
  live_entry (jid, s) = is_live s.current_proc

  -- The groups whose process `shutdown` terminates and whose idle event it then waits for.
  unfoldable pub shutdown : GroupQueue F → List String
  shutdown q = map (λ (e : String × GroupState F). e.0) (select live_entry q.states)

  abbrev snapshot_item : String × GroupState F → SnapshotItem
  snapshot_item (jid, s) = record {
    jid = jid;
    group_folder = s.group_folder;
    running = s.running;
    queue_size = length s.queue;
    subprocess_name = s.subprocess_name;
    pid = pid_of s.current_proc;
    returncode = returncode_of s.current_proc;
  }

  unfoldable pub snapshot : GroupQueue F → List SnapshotItem
  snapshot q = sort (ascending (λ (i : SnapshotItem). i.jid)) (map snapshot_item q.states)
