-- ===== src/Ipc.antt =====
-- secnano/ipc.py: the watcher of the directories in which channel bridges and agents leave files.
-- A poll sees the directories as they are at its start; no one else changes them meanwhile.
pub mod Tasks
pub mod Changes
pub mod Paths
pub mod Polling
use secnano.Prelude.{
  ℕ, String, Bool, true, false, not, ◌&&◌, Option, none, some, List, [], ◌∷◌, ◌++◌, ◌==◌,
  if◌then◌else◌, is_some, is_empty, select, map,
}
use secnano.Types.{Json, ChatMetadata, NewMessage, IpcTaskRequest, RegisteredGroup}
use secnano.Effect.{Result, ok, raised}
use secnano.JsonValue.{text_field, optional_field, flag_field, optional_flag, text_or}
use secnano.Db.Sort.{sort, ascending}
use secnano.Host.{System, Host}
use secnano.ControlPlane.{handle_ipc_task}
use secnano.Ingress.{handle_chat_metadata, handle_new_message}

-- `none` stands for what is no file, such as a directory.
pub record FileEntry : Type 0 where
  pub name : String
  pub content : Option String

-- `data/ipc/{folder}`
pub record GroupIpc : Type 0 where
  pub messages : List FileEntry
  pub tasks : List FileEntry
  pub chat_metadata : List FileEntry

-- `path.stem`, if `path.suffix == ".json"`. A name that begins with its last dot has no suffix.
unfoldable pub json_stem : String → Option String
json_stem String.[] = none
json_stem (String.◌∷◌ c s) =
    let rest = json_stem s in
    if s == ".json"
    then some (String.◌∷◌ c "")
    else elim rest [ none ↦ none | some stem ↦ some (String.◌∷◌ c stem) ]

-- The files that a poll handles and deletes.
unfoldable pub is_polled : FileEntry → Bool
unfolding json_stem
is_polled entry = is_some (json_stem entry.name) && is_some entry.content

module _ {ℓ} {S : Type ℓ} (handler : String → String → S → Result (Unit {0}) × S) where
  -- The handler gets the stem and the text of a file; what it raises is logged.
  abbrev handle_file : Option String → Option String → S → S
  handle_file (some stem) (some content) s = (handler stem content s).1
  handle_file _ _ s = s

  unfoldable pub handle_entries : List FileEntry → S → S
  unfolding json_stem
  handle_entries [] s = s
  handle_entries (entry ∷ entries) s =
      handle_entries entries (handle_file (json_stem entry.name) entry.content s)

  -- `_poll_directory`, and what is left in the directory: each file is deleted, handled or not.
  unfoldable pub poll_directory : List FileEntry → S → List FileEntry × S
  unfolding is_polled handle_entries
  poll_directory entries s = (
    select (λ e. not (is_polled e)) entries,
    handle_entries (sort (ascending (λ (e : FileEntry). e.name)) entries) s,
  )

abbrev pub metadata_of : List (String × Json) → ChatMetadata
metadata_of fields = record {
  chat_jid = text_field "chat_jid" "" fields;
  timestamp = text_field "timestamp" "" fields;
  name = optional_field "name" fields;
  channel = optional_field "channel" fields;
  is_group = optional_flag "is_group" fields;
}

abbrev pub message_of : String → List (String × Json) → NewMessage
message_of stem fields = record {
  id = text_field "id" stem fields;
  chat_jid = text_field "chat_jid" "" fields;
  sender = text_field "sender" "" fields;
  sender_name = text_field "sender_name" "" fields;
  content = text_field "content" "" fields;
  timestamp = text_field "timestamp" "" fields;
  is_from_me = flag_field "is_from_me" fields;
  is_bot_message = flag_field "is_bot_message" fields;
}

-- `path.parent.parent.name` is the folder whose `tasks` directory holds the file.
abbrev pub task_of : String → String → List (String × Json) → IpcTaskRequest
task_of folder stem fields = record {
  id = text_or "id" stem fields;
  source_group = folder;
  type = text_or "type" "schedule_task" fields;
  payload = fields;
  timestamp = optional_field "timestamp" fields;
}

-- `loads` is `json.loads`, and raises too where the value is no object, which has no `get`.
module _ (sys : System) (sender_allowed : String → Bool)
    (matches_group_trigger : RegisteredGroup → String → Bool)
    (loads : String → Result (List (String × Json))) where
  -- Only a text `chat_metadata` equals the constant.
  abbrev dispatch_message : String → Result (List (String × Json)) → Host → Result (Unit {0}) × Host
  unfolding handle_chat_metadata handle_new_message
  dispatch_message stem (raised e) h = (raised e, h)
  dispatch_message stem (ok fields) h =
      if text_field "type" "" fields == "chat_metadata"
      then (ok tt, handle_chat_metadata sys (metadata_of fields) h)
      else (
        ok tt,
        handle_new_message sys sender_allowed matches_group_trigger (message_of stem fields) h,
      )

  unfoldable pub handle_message_file : String → String → Host → Result (Unit {0}) × Host
  unfolding handle_chat_metadata handle_new_message
  handle_message_file stem content h = dispatch_message stem (loads content) h

  abbrev dispatch_metadata : Result (List (String × Json)) → Host → Result (Unit {0}) × Host
  unfolding handle_chat_metadata
  dispatch_metadata (raised e) h = (raised e, h)
  dispatch_metadata (ok fields) h = (ok tt, handle_chat_metadata sys (metadata_of fields) h)

  unfoldable pub handle_metadata_file : String → String → Host → Result (Unit {0}) × Host
  unfolding handle_chat_metadata
  handle_metadata_file stem content h = dispatch_metadata (loads content) h

  abbrev pub dispatch_task :
      String → String → Result (List (String × Json)) → Host → Result (Unit {0}) × Host
  unfolding handle_ipc_task
  dispatch_task folder stem (raised e) h = (raised e, h)
  dispatch_task folder stem (ok fields) h = handle_ipc_task sys (task_of folder stem fields) h

  unfoldable pub handle_task_file : String → String → String → Host → Result (Unit {0}) × Host
  unfolding handle_ipc_task
  handle_task_file folder stem content h = dispatch_task folder stem (loads content) h

  -- One folder in a round of `start_ipc_watcher`, with all three callbacks given.
  unfoldable pub poll_folder : String → GroupIpc → Host → GroupIpc × Host
  unfolding poll_directory handle_message_file handle_metadata_file handle_task_file
  poll_folder folder dirs h =
      let (messages, h1) = poll_directory handle_message_file dirs.messages h in
      let (tasks, h2) = poll_directory (handle_task_file folder) dirs.tasks h1 in
      let (chat_metadata, h3) = poll_directory handle_metadata_file dirs.chat_metadata h2 in
      (record { messages = messages; tasks = tasks; chat_metadata = chat_metadata }, h3)

  -- A round over the folders that `_discover_group_folders` gave, in their order.
  unfoldable pub poll_folders : List (String × GroupIpc) → Host → List (String × GroupIpc) × Host
  unfolding poll_folder
  poll_folders [] h = ([], h)
  poll_folders ((folder, dirs) ∷ rest) h =
      let (left, h1) = poll_folder folder dirs h in
      let (others, h2) = poll_folders rest h1 in ((folder, left) ∷ others, h2)

-- `_discover_group_folders` sorts the folders; a seed without a directory has nothing to poll.
unfoldable pub poll_round :
    System
    → (String → Bool)
    → (RegisteredGroup → String → Bool)
    → (String → Result (List (String × Json)))
    → List (String × GroupIpc)
    → Host
    → List (String × GroupIpc) × Host
unfolding poll_folders
poll_round sys sender_allowed matches_group_trigger loads ipc h =
    poll_folders sys sender_allowed matches_group_trigger loads
      (sort (ascending (λ (e : String × GroupIpc). e.0)) ipc) h
