-- ===== src/Db/Messages.antt =====
-- The table `messages` of secnano/db.py.
pub mod Window
use mathlib.Core.List.{reverse}
use secnano.Prelude.{ℕ, String, List, take, select, ◌==◌}
use secnano.Types.{Message}
use secnano.Db.Table.{insert_or_ignore}
use secnano.Db.Sort.{sort, descending}
use secnano.Db.Database.{Database}

unfoldable pub insert_message : Message → Database → Database
insert_message msg db = record db {
  messages = insert_or_ignore (λ (m : Message). m.id) msg db.messages;
}

-- `LIMIT` keeps the newest rows, and `reversed` puts the oldest of them first.
unfoldable pub get_messages : String → ℕ → Database → List Message
get_messages chat_jid limit db = reverse (
    take limit (
      sort (descending (λ (m : Message). m.timestamp))
        (select (λ (m : Message). m.chat_jid == chat_jid) db.messages)))

unfoldable pub list_recent_messages : ℕ → Database → List Message
list_recent_messages limit db =
    take limit (sort (descending (λ (m : Message). m.timestamp)) db.messages)
