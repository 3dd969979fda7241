-- ===== src/GroupQueue/Paths.antt =====
-- Where `send_message` and `close_stdin` of secnano/group_queue.py write. `join` is `/` of a path and a
-- name.
use secnano.Prelude.{String}
use secnano.GroupQueue.{IpcInput, message, close_sentinel}

module _ (join : String → String → String) (data_dir : String) where
  abbrev pub ipc_input_dir : (folder : String) → String
  ipc_input_dir folder = join (join (join data_dir "ipc") folder) "input"

  abbrev pub path_of : IpcInput → String
  path_of (message folder filename content) = join (ipc_input_dir folder) filename
  path_of (close_sentinel folder) = join (ipc_input_dir folder) "_close"
