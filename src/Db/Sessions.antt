-- ===== src/Db/Sessions.antt =====
-- The table `sessions` of secnano/db.py.
use secnano.Prelude.{String, Option, List}
use secnano.Types.{Session}
use secnano.Db.Table.{find_row, upsert_row, delete_row}
use secnano.Db.Sort.{sort, descending}
use secnano.Db.Database.{Database}

abbrev session_key : Session → String
session_key s = s.group_folder

unfoldable pub get_session : String → Database → Option Session
get_session group_folder db = find_row session_key group_folder db.sessions

unfoldable pub upsert_session : Session → Database → Database
upsert_session session db = record db {
  sessions = upsert_row session_key (λ _. session) session db.sessions;
}

unfoldable pub delete_session : String → Database → Database
delete_session group_folder db = record db {
  sessions = delete_row session_key group_folder db.sessions;
}

unfoldable pub list_sessions : Database → List Session
list_sessions db = sort (descending (λ (s : Session). s.updated_at)) db.sessions
