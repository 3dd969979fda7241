-- ===== src/GroupQueue/Processes.antt =====
-- The process fields of a group in secnano/group_queue.py, and who they let write to a folder.
use secnano.Prelude.{String, ◌≡◌, false, none, some, arith, eq_refl, is_empty}
use secnano.GroupQueue.{
  GroupQueue, Process, close_sentinel, message, state_of, state_of-with_state, register_process,
  notify_idle, send_message, close_stdin,
}

module _ {F : Type 0} (jid : String) (proc : Process) (name folder : String)
    (q : GroupQueue F) where
  abbrev registered : GroupQueue F
  registered = register_process jid proc name folder q

  abbrev finished : GroupQueue F
  finished = notify_idle jid registered

  state_of-registered : state_of jid registered ≡ record (state_of jid q) {
    current_proc = some proc;
    subprocess_name = some name;
    group_folder = some folder;
  }
  unfolding register_process
  state_of-registered = simp (state_of-with_state, eq_refl)

  pub registered_writes :
      (filename text : String)
      → is_empty folder ≡ false
      → (send_message jid filename text registered).1 ≡ some (message folder filename text)
  unfolding send_message
  registered_writes filename text f = ground (arith, state_of-registered)

  state_of-finished : state_of jid finished ≡ record (state_of jid q) {
    current_proc = none;
    subprocess_name = none;
    group_folder = some folder;
  }
  unfolding notify_idle
  state_of-finished = simp (state_of-with_state, eq_refl, state_of-registered)

  -- `notify_idle` forgets the process but not the folder: after a run of a group with a folder name,
  -- when no process is registered any more, `close_stdin` still writes the sentinel and
  -- `send_message` still writes the message into that folder.
  pub finished_still_writes :
      (filename text : String)
      → is_empty folder ≡ false
      → ((state_of jid finished).current_proc ≡ none)
        × ((close_stdin jid finished).1 ≡ some (close_sentinel folder))
        × ((send_message jid filename text finished).1 ≡ some (message folder filename text))
  unfolding close_stdin send_message
  finished_still_writes filename text f =
      (rw state_of-finished, ground (arith, state_of-finished), ground (arith, state_of-finished))
