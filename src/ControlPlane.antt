-- ===== src/ControlPlane.antt =====
-- secnano/control_plane.py: the task requests that agents write into their IPC folder.
pub mod Authority
pub mod Registration
use Prim.Native.Char.{code}
use secnano.Prelude.{
  ℕ, ◌+◌, String, Bool, true, false, not, ◌&&◌, ◌||◌, Option, none, some, List, [], ◌∷◌, ◌==◌, leb,
  eqb, if◌then◌else◌, is_empty, strip, show, opt_true, is_some, any,
}
use secnano.Types.{Json, null, boolean, number, text, IpcTaskRequest, RegisteredGroup, Chat}
use secnano.JsonValue.{get_item, str_of}
use secnano.Effect.{Result, ok, raised}
use secnano.Db.Chats.{get_chat, store_chat_metadata}
use secnano.Db.Groups.{get_registered_group, upsert_registered_group}
use secnano.GroupFolder.{is_valid_group_folder}
use secnano.Host.{
  System, Host, TraceArgs, trace_args, emit_trace, ensure_group_dirs, now_utc, or_now,
}

abbrev item_text : Option Json → String
item_text none = ""
item_text (some v) = str_of v

-- `str(data.get(key, "")).strip()`
unfoldable pub text_item : String → List (String × Json) → String
unfolding get_item strip
text_item key payload = strip (item_text (get_item key payload))

-- `data.get("channel")` where it is true. SQLite stores a number or `True` in the TEXT column as text.
abbrev channel_item : Option Json → Option String
channel_item none = none
channel_item (some null) = none
channel_item (some (boolean b)) = if b then some "1" else none
channel_item (some (number n)) = if eqb n 0 then none else some (show n)
channel_item (some (text s)) = if is_empty s then none else some s

abbrev channel_of : Option Json → Option Chat → Option String
channel_of item none = channel_item item
channel_of item (some existing) = elim (channel_item item) [
  | none ↦ some existing.channel
  | some c ↦ some c
]

lower : ℕ → ℕ
lower c = if leb 65 c && leb c 90 then c + 32 else c

-- `value.lower() == word`, for an ASCII word; no other letter has an ASCII letter of the words
-- below as its lower case.
unfoldable pub lowers_to : String → String → Bool
unfolding lower
lowers_to String.[] String.[] = true
lowers_to (String.◌∷◌ c s) (String.◌∷◌ d t) = eqb (lower (code c)) (code d) && lowers_to s t
lowers_to _ _ = false

abbrev one_of : String → List String → Bool
one_of s [] = false
one_of s (w ∷ ws) = lowers_to s w || one_of s ws

abbrev flag_text : String → Option Bool
flag_text s =
    if one_of s ("true" ∷ "1" ∷ "yes" ∷ [])
    then some true
    else if one_of s ("false" ∷ "0" ∷ "no" ∷ [])
    then some false
    else none

-- `requires_trigger`: a Boolean, or a text for one; anything else is `None`.
unfoldable pub requires_trigger_of : Option Json → Option Bool
unfolding strip lowers_to
requires_trigger_of (some (boolean b)) = some b
requires_trigger_of (some (text s)) = flag_text (strip s)
requires_trigger_of _ = none

-- `source is None or not source.is_main` is the negation.
abbrev pub is_main_group : Option RegisteredGroup → Bool
is_main_group none = false
is_main_group (some g) = elim g.is_main [ none ↦ false | some b ↦ b ]

abbrev pub task_trace : IpcTaskRequest → String → String → TraceArgs
task_trace task stage status = record (trace_args task.id "ipc_task" stage status) {
  task_id = some task.id;
  source = some task.source_group;
}

abbrev pub requested_jid : IpcTaskRequest → String
requested_jid task = text_item "jid" task.payload

abbrev pub requested_name : IpcTaskRequest → String
requested_name task = text_item "name" task.payload

abbrev pub requested_folder : IpcTaskRequest → String
requested_folder task = text_item "folder" task.payload

abbrev pub requested_trigger : IpcTaskRequest → String
requested_trigger task = text_item "trigger" task.payload

-- `not (jid and name and folder and trigger)` is the negation.
unfoldable pub is_complete : IpcTaskRequest → Bool
is_complete task =
    not (is_empty (requested_jid task))
    && not (is_empty (requested_name task))
    && not (is_empty (requested_folder task))
    && not (is_empty (requested_trigger task))

-- The group that a complete request asks for, registered at `added_at`.
abbrev pub requested_group : IpcTaskRequest → String → RegisteredGroup
requested_group task added_at = record {
  jid = requested_jid task;
  name = requested_name task;
  folder = requested_folder task;
  trigger = requested_trigger task;
  added_at = added_at;
  subprocess_config = none;
  requires_trigger = requires_trigger_of (get_item "requires_trigger" task.payload);
  is_main = some false;
}

module _ (sys : System) (task : IpcTaskRequest) where
  -- `store_chat_metadata` for the requested jid.
  unfoldable pub store_requested_chat : Host → Host
  unfolding store_chat_metadata
  store_requested_chat h =
      let existing = get_chat (requested_jid task) h.db in
      let (timestamp, h') = or_now sys task.timestamp h in
      record h' {
        db =
            store_chat_metadata (requested_jid task) timestamp (some (requested_name task))
              (channel_of (get_item "channel" task.payload) existing) (some true) h'.db;
      }

  abbrev pub registered_trace : TraceArgs
  registered_trace = record (task_trace task "ipc_task.group_registered" "success") {
    jid = some (requested_jid task);
    group_folder = some (requested_folder task);
  }

  -- What follows `upsert_registered_group`, unless that raised.
  abbrev pub after_upsert : Result (Unit {0}) → Host → Result (Unit {0}) × Host
  unfolding emit_trace ensure_group_dirs
  after_upsert (raised e) h = (raised e, h)
  after_upsert (ok _) h =
      (ok tt, emit_trace sys registered_trace (ensure_group_dirs (requested_folder task) h))

  unfoldable pub register : Host → Result (Unit {0}) × Host
  unfolding store_requested_chat emit_trace ensure_group_dirs
  register h =
      let stored = store_requested_chat h in
      let (added_at, timed) = now_utc sys stored in
      let (result, db) = upsert_registered_group (requested_group task added_at) timed.db in
      after_upsert result (record timed { db = db })

  unfoldable pub reject : Host → Host
  unfolding emit_trace
  reject h =
      emit_trace sys (task_trace task "ipc_task.rejected" "rejected")
        (emit_trace sys (task_trace task "ipc_task.auth_checked" "rejected") h)

  unfoldable pub handle_ipc_task : Host → Result (Unit {0}) × Host
  unfolding register reject emit_trace
  handle_ipc_task h =
      let received = emit_trace sys (task_trace task "ipc_task.received" "accepted") h in
      if not (task.type == "register_group")
      then (ok tt, received)
      else if not (is_main_group (get_registered_group task.source_group received.db))
      then (ok tt, reject received)
      else let checked =
          emit_trace sys (task_trace task "ipc_task.auth_checked" "success") received in
        if not (is_complete task)
        then (ok tt, checked)
        else if not (is_valid_group_folder (requested_folder task))
        then (ok tt, checked)
        else register checked
