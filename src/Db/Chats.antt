-- ===== src/Db/Chats.antt =====
-- The table `chats` of secnano/db.py.
pub mod Metadata
use secnano.Prelude.{String, Bool, true, Option, none, some, List, if◌then◌else◌, str_le, opt_or}
use secnano.Types.{Chat}
use secnano.Db.Table.{find_row, upsert_row}
use secnano.Db.Sort.{sort, descending}
use secnano.Db.Database.{Database}

unfoldable pub get_chat : String → Database → Option Chat
get_chat jid db = find_row (λ (c : Chat). c.jid) jid db.chats

-- Every column but the key is in the SET list.
unfoldable pub upsert_chat : Chat → Database → Database
upsert_chat chat db = record db {
  chats = upsert_row (λ (c : Chat). c.jid) (λ _. chat) chat db.chats;
}

abbrev name_of : String → Option Chat → String
name_of chat_jid none = chat_jid
name_of chat_jid (some existing) = existing.name

abbrev channel_of : Option Chat → String
channel_of none = "unknown"
channel_of (some existing) = existing.channel

abbrev is_group_of : Option Bool → Option Chat → Bool
is_group_of (some b) existing = b
is_group_of none none = true
is_group_of none (some existing) = existing.is_group

-- `existing.last_message_time > timestamp` is the negation of `<=`.
abbrev time_of : String → Option Chat → String
time_of timestamp none = timestamp
time_of timestamp (some existing) =
    if str_le existing.last_message_time timestamp then timestamp else existing.last_message_time

-- The row that `store_chat_metadata` writes over `existing`.
abbrev pub merged_chat :
    String → String → Option String → Option String → Option Bool → Option Chat → Chat
merged_chat chat_jid timestamp name channel is_group existing = record {
  jid = chat_jid;
  name = opt_or name (name_of chat_jid existing);
  last_message_time = time_of timestamp existing;
  channel = opt_or channel (channel_of existing);
  is_group = is_group_of is_group existing;
}

unfoldable pub store_chat_metadata :
    String → String → Option String → Option String → Option Bool → Database → Database
unfolding upsert_chat get_chat
store_chat_metadata chat_jid timestamp name channel is_group db =
    upsert_chat (merged_chat chat_jid timestamp name channel is_group (get_chat chat_jid db)) db

unfoldable pub list_chats : Database → List Chat
list_chats db = sort (descending (λ (c : Chat). c.last_message_time)) db.chats
