-- ===== src/Ingress.antt =====
-- secnano/ingress.py: what the host does with chat metadata and with new messages.
pub mod Routing
use secnano.Prelude.{
  ℕ, ◌+◌, String, Bool, true, false, not, ◌&&◌, ◌||◌, Option, none, some, List, [], ◌∷◌,
  if◌then◌else◌, is_empty, str_or,
}
use secnano.Types.{NewMessage, ChatMetadata, Message, Chat, RegisteredGroup, Json, text}
use secnano.Db.Chats.{get_chat, store_chat_metadata}
use secnano.Db.Messages.{insert_message}
use secnano.Db.Groups.{get_registered_group_by_jid}
use secnano.Host.{
  System, Host, Job, process_messages, TraceArgs, trace_args, emit_trace, enqueue_task, uuid4,
}

abbrev existing_name : Option Chat → String → String
existing_name none fallback = fallback
existing_name (some chat) fallback = str_or chat.name fallback

abbrev existing_channel : Option Chat → String
existing_channel none = "unknown"
existing_channel (some chat) = chat.channel

-- `s or now_utc()`, where the clock is read only for an empty text.
abbrev pub text_or_now : System → String → Host → String × Host
text_or_now sys s h =
    (str_or s (sys.clock h.ticks), record h { ticks = if is_empty s then h.ticks + 1 else h.ticks })

unfoldable pub handle_chat_metadata : System → ChatMetadata → Host → Host
unfolding store_chat_metadata
handle_chat_metadata sys metadata h =
    if is_empty metadata.chat_jid
    then h
    else let (timestamp, h') = text_or_now sys metadata.timestamp h in
      record h' {
        db =
            store_chat_metadata metadata.chat_jid timestamp metadata.name metadata.channel
              metadata.is_group h'.db;
      }

-- `sender_allowed` and `matches_group_trigger` are arguments of `handle_new_message`.
module _ (sys : System) (sender_allowed : String → Bool)
    (matches_group_trigger : RegisteredGroup → String → Bool) where
  abbrev pub message_trace : String → String → String → NewMessage → TraceArgs
  message_trace trace_id stage status new_msg =
      record (trace_args trace_id "message" stage status) { jid = some new_msg.chat_jid }

  abbrev pub group_trace : String → String → String → RegisteredGroup → TraceArgs
  group_trace trace_id stage status matched = record (trace_args trace_id "message" stage status) {
    jid = some matched.jid;
    group_folder = some matched.folder;
  }

  -- The chat and then the message, each with a timestamp of its own if the message has none.
  unfoldable pub store_message : NewMessage → Host → Host
  unfolding store_chat_metadata insert_message
  store_message new_msg h =
      let existing = get_chat new_msg.chat_jid h.db in
      let (chat_time, h1) = text_or_now sys new_msg.timestamp h in
      let h2 : Host = record h1 {
        db =
            store_chat_metadata new_msg.chat_jid chat_time
              (some (existing_name existing (str_or new_msg.sender_name new_msg.chat_jid)))
              (some (existing_channel existing)) (some true) h1.db;
      } in
      let (message_time, h3) = text_or_now sys new_msg.timestamp h2 in
      record h3 {
        db =
            insert_message
              (record {
                id = new_msg.id;
                chat_jid = new_msg.chat_jid;
                sender = new_msg.sender;
                sender_name = new_msg.sender_name;
                content = new_msg.content;
                timestamp = message_time;
                is_from_me = false;
                is_bot_message = false;
              })
              h3.db;
      }

  unfoldable pub queue_message : String → NewMessage → RegisteredGroup → Host → Host
  unfolding emit_trace enqueue_task
  queue_message trace_id new_msg matched h =
      let h1 = emit_trace sys (group_trace trace_id "message.enqueued" "accepted" matched) h in
      let (task_id, h2) = uuid4 sys h1 in
      enqueue_task new_msg.chat_jid task_id (process_messages matched trace_id) h2

  unfoldable pub route_message : String → NewMessage → Option RegisteredGroup → Host → Host
  unfolding queue_message emit_trace
  route_message trace_id new_msg none h =
      emit_trace sys (message_trace trace_id "message.no_registered_group" "skip" new_msg) h
  route_message trace_id new_msg (some matched) h =
      let h1 = emit_trace sys (group_trace trace_id "message.group_matched" "success" matched) h in
      if not (matches_group_trigger matched new_msg.content)
      then emit_trace sys
          (record (group_trace trace_id "message.trigger_miss" "skip" matched) {
            jid = some new_msg.chat_jid;
          })
          h1
      else queue_message trace_id new_msg matched h1

  abbrev received_trace : String → NewMessage → TraceArgs
  received_trace trace_id new_msg =
      record (message_trace trace_id "message.received" "accepted" new_msg) {
        details = ("sender", text new_msg.sender) ∷ [];
      }

  -- What follows the choice of the trace id.
  unfoldable pub receive_message : String → NewMessage → Host → Host
  unfolding store_message route_message emit_trace
  receive_message trace_id new_msg h =
      let h1 = emit_trace sys (received_trace trace_id new_msg) h in
      if new_msg.is_bot_message || new_msg.is_from_me
      then h1
      else if not (sender_allowed new_msg.sender)
      then h1
      else let h2 = store_message new_msg h1 in
        let h3 = emit_trace sys (message_trace trace_id "message.stored" "success" new_msg) h2 in
        route_message trace_id new_msg (get_registered_group_by_jid new_msg.chat_jid h3.db) h3

  -- `new_msg.id or str(uuid.uuid4())`
  unfoldable pub handle_new_message : NewMessage → Host → Host
  unfolding receive_message
  handle_new_message new_msg h =
      if is_empty new_msg.id
      then (let (trace_id, h') = uuid4 sys h in receive_message trace_id new_msg h')
      else receive_message new_msg.id new_msg h
