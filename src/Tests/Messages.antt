-- ===== src/Tests/Messages.antt =====
-- Messages, chats and traces of a team.
use secnano.Prelude.{
  String, ◌≡◌, refl, Bool, true, false, none, some, List, [], ◌∷◌, ◌++◌, map, arith, if◌then◌else◌,
  last_items, str_le,
}
use secnano.Types.{Chat}
use secnano.Trace.{TraceStore}
use secnano.Trace.Buffer.{record_all, record_all-last_items}
use secnano.Db.Messages.{get_messages}
use secnano.Db.Table.{find_row}
use secnano.Db.Messages.Window.{IsWindow, get_messages-IsWindow}
use secnano.Db.Chats.{get_chat, store_chat_metadata}
use secnano.Db.Chats.Metadata.{store_chat_metadata-monotone}
use secnano.Db.Groups.{get_registered_group_by_jid}
use secnano.Ingress.{handle_new_message}
use secnano.Ingress.Routing.{
  run_of, runs_for, trace_id_of, is_accepted, handle_new_message-enqueued,
}
use secnano.Tests.Data.{
  test_system, test_host, test_database, test_chat, test_new_message, test_event,
}
use secnano.Types.{RegisteredGroup, Message}

abbrev from_alice : String → Bool
from_alice sender = true

abbrev any_trigger : RegisteredGroup → String → Bool
any_trigger group content = true

handle_new_message-enqueued_example :
    map run_of
      (handle_new_message test_system from_alice any_trigger
        (test_new_message false)
        test_host).enqueued
    ≡ map run_of []
      ++ (if is_accepted test_system from_alice any_trigger (test_new_message false)
          then runs_for test_system from_alice any_trigger
              (trace_id_of test_system from_alice any_trigger (test_new_message false) test_host)
              (test_new_message false)
              (get_registered_group_by_jid "web:team" test_database)
          else [])
handle_new_message-enqueued_example =
    handle_new_message-enqueued test_system from_alice any_trigger (test_new_message false)
      test_host

get_messages-IsWindow_example :
    (older : List Message) × IsWindow "web:team" 1 test_database
      (get_messages "web:team" 1 test_database)
      older
get_messages-IsWindow_example = get_messages-IsWindow "web:team" 1 test_database

store_chat_metadata-monotone_example :
    (c : Chat) × (get_chat "web:team"
        (store_chat_metadata "web:team" "2025-12-01" none none none test_database)
      ≡ some c)
    × (str_le "2025-12-02T00:00:00+00:00" c.last_message_time ≡ true)
    × (str_le "2025-12-01" c.last_message_time ≡ true)
unfolding get_chat find_row
store_chat_metadata-monotone_example =
    store_chat_metadata-monotone "web:team" "2025-12-01" none none none test_database test_chat refl

abbrev full_store : TraceStore
full_store = record { recent = test_event "e1" ∷ test_event "e2" ∷ []; maxlen = 2 }

record_all-last_items_example :
    (record_all (test_event "e3" ∷ []) full_store).recent
    ≡ last_items 2 ((test_event "e1" ∷ test_event "e2" ∷ []) ++ test_event "e3" ∷ [])
record_all-last_items_example =
    record_all-last_items (test_event "e3" ∷ []) full_store (omega arith)
