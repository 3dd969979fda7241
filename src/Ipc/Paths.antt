-- ===== src/Ipc/Paths.antt =====
-- The directories of secnano/ipc.py. `join` is `/` of a path and a name.
use secnano.Prelude.{String}

module _ (join : String → String → String) (data_dir : String) where
  abbrev pub ipc_base : (group_folder : String) → String
  ipc_base group_folder = join (join data_dir "ipc") group_folder

  abbrev pub messages_dir : (group_folder : String) → String
  messages_dir group_folder = join (ipc_base group_folder) "messages"

  abbrev pub tasks_dir : (group_folder : String) → String
  tasks_dir group_folder = join (ipc_base group_folder) "tasks"

  abbrev pub chat_metadata_dir : (group_folder : String) → String
  chat_metadata_dir group_folder = join (ipc_base group_folder) "chat_metadata"
