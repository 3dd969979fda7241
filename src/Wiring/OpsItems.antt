-- ===== src/Wiring/OpsItems.antt =====
-- `_build_ops_snapshot` of secnano/main.py: the rows and states that the operator's view shows.
use secnano.Prelude.{ℕ, String, Bool, Option, none, some, List, [], ◌∷◌, map, take, str_or}
use secnano.Types.{RegisteredGroup, ScheduledTask, TaskRunLog, Session, Message, Chat}
use secnano.Db.Database.{Database}
use secnano.Db.Groups.{list_registered_groups}
use secnano.Db.Tasks.{list_scheduled_tasks, list_recent_task_run_logs}
use secnano.Db.Sessions.{list_sessions}
use secnano.Db.Messages.{list_recent_messages}
use secnano.Db.Chats.{list_chats}
use secnano.GroupQueue.{ℤ, pos, negsuc, GroupQueue, SnapshotItem, snapshot}
use secnano.OpsView.{
  Value, null_value, bool_value, int_value, negative_value, text_value, Item, no_members, member,
}
use secnano.OpsView.Snapshot.{Collections, OpsSnapshot, build_ops_snapshot}

-- `{key: value, ...}`
abbrev pub item_of : List (String × Value) → Item
item_of [] = no_members
item_of ((key, v) ∷ rest) = member key v (item_of rest)

abbrev text_or_null : Option String → Value
text_or_null none = null_value
text_or_null (some s) = text_value s

abbrev bool_or_null : Option Bool → Value
bool_or_null none = null_value
bool_or_null (some b) = bool_value b

abbrev int_or_null : Option ℕ → Value
int_or_null none = null_value
int_or_null (some n) = int_value n

abbrev code_or_null : Option ℤ → Value
code_or_null none = null_value
code_or_null (some (pos n)) = int_value n
code_or_null (some (negsuc n)) = negative_value n

-- What an entry for a channel reads of it; `jid` is `none` where the channel has no `chat_jid`.
pub record ChannelState : Type 0 where
  pub name : String
  pub connected : Bool
  pub jid : Option String

abbrev pub channel_item : ChannelState → Item
channel_item channel = item_of (
    ("name", text_value channel.name)
    ∷ ("connected", bool_value channel.connected)
    ∷ ("jid", text_or_null channel.jid)
    ∷ [])

abbrev pub group_item : RegisteredGroup → Item
group_item group = item_of (
    ("jid", text_value group.jid)
    ∷ ("name", text_value group.name)
    ∷ ("folder", text_value group.folder)
    ∷ ("trigger", text_value group.trigger)
    ∷ ("requires_trigger", bool_or_null group.requires_trigger)
    ∷ ("is_main", bool_or_null group.is_main)
    ∷ [])

abbrev pub queue_item : SnapshotItem → Item
queue_item queue = item_of (
    ("jid", text_value queue.jid)
    ∷ ("group_folder", text_or_null queue.group_folder)
    ∷ ("running", bool_value queue.running)
    ∷ ("queue_size", int_value queue.queue_size)
    ∷ ("subprocess_name", text_or_null queue.subprocess_name)
    ∷ ("pid", int_or_null queue.pid)
    ∷ ("returncode", code_or_null queue.returncode)
    ∷ [])

abbrev pub task_item : ScheduledTask → Item
task_item task = item_of (
    ("id", text_value task.id)
    ∷ ("group_folder", text_value task.group_folder)
    ∷ ("chat_jid", text_value task.chat_jid)
    ∷ ("schedule_type", text_value task.schedule_type)
    ∷ ("schedule_value", text_value task.schedule_value)
    ∷ ("next_run", text_or_null task.next_run)
    ∷ ("last_run", text_or_null task.last_run)
    ∷ ("status", text_value task.status)
    ∷ [])

abbrev pub run_item : TaskRunLog → Item
run_item log = item_of (
    ("task_id", text_value log.task_id)
    ∷ ("run_at", text_value log.run_at)
    ∷ ("duration_ms", int_value log.duration_ms)
    ∷ ("status", text_value log.status)
    ∷ ("error", text_or_null log.error)
    ∷ [])

abbrev pub session_item : Session → Item
session_item session = item_of (
    ("group_folder", text_value session.group_folder)
    ∷ ("session_id", text_value session.session_id)
    ∷ ("updated_at", text_value session.updated_at)
    ∷ [])

abbrev pub message_item : Message → Item
message_item message = item_of (
    ("id", text_value message.id)
    ∷ ("chat_jid", text_value message.chat_jid)
    ∷ ("sender", text_value (str_or message.sender_name message.sender))
    ∷ ("content", text_value message.content)
    ∷ ("timestamp", text_value message.timestamp)
    ∷ ("is_from_me", bool_value message.is_from_me)
    ∷ ("is_bot_message", bool_value message.is_bot_message)
    ∷ [])

abbrev pub chat_item : Chat → Item
chat_item chat = item_of (
    ("jid", text_value chat.jid)
    ∷ ("name", text_value chat.name)
    ∷ ("last_message_time", text_value chat.last_message_time)
    ∷ ("channel", text_value chat.channel)
    ∷ ("is_group", bool_value chat.is_group)
    ∷ [])

-- What the host collects; `recent_events` is the answer of `get_recent_events(limit=80)`.
unfoldable pub collect_ops :
    {F : Type 0}
    → List ChannelState
    → GroupQueue F
    → Database
    → (recent_events agent_runs : List Item) → Collections
collect_ops channels queue db recent_events agent_runs = record {
  channels = map channel_item channels;
  registered_groups = map group_item (list_registered_groups db);
  queues = map queue_item (snapshot queue);
  scheduled_tasks = map task_item (list_scheduled_tasks none db);
  task_runs = map run_item (list_recent_task_run_logs 20 db);
  sessions = map session_item (list_sessions db);
  recent_messages = map message_item (list_recent_messages 30 db);
  chats = map chat_item (take 20 (list_chats db));
  recent_events = recent_events;
  agent_runs = agent_runs;
}

-- `_build_ops_snapshot`
unfoldable pub ops_snapshot :
    {F : Type 0}
    → (lower : String → String) → (reached : String → Option Bool)
    → (filter_text selected_run_id : Option String) → List ChannelState
    → GroupQueue F
    → Database
    → (recent_events agent_runs : List Item) → OpsSnapshot
ops_snapshot lower reached filter_text selected_run_id channels queue db recent_events agent_runs =
    build_ops_snapshot lower reached filter_text selected_run_id
      (collect_ops channels queue db recent_events agent_runs)
