-- ===== src/Tests/Requests.antt =====
-- Requests of the main group and of a team.
use secnano.Prelude.{◌≡◌, refl, ◌⊎◌, true, false, ◌&&◌, some, [], ◌∷◌, ◌++◌, ◌==◌, any}
use secnano.Effect.{ok, raised}
use secnano.Types.{IpcTaskRequest}
use secnano.Db.Table.{find_row}
use secnano.Db.Groups.{get_registered_group, unique_failed, jid_taken, upsert_registered_group}
use secnano.Db.Groups.Unique.{IsUnique, upsert_registered_group-IsUnique}
use secnano.ControlPlane.{
  handle_ipc_task, requested_folder, is_complete, text_item, store_requested_chat,
}
use secnano.GroupFolder.{is_valid_group_folder}
use secnano.ControlPlane.Authority.{IsGranted, source_is_main, checked, asked, handle_ipc_task_safe}
use secnano.ControlPlane.Registration.{register_group_outcome, register_own_folder}
use secnano.Tests.Data.{test_system, test_host, test_database, test_request, test_group}

abbrev granted : IpcTaskRequest
granted = test_request "main" "web:new" "new"

abbrev refused : IpcTaskRequest
refused = test_request "team" "web:new" "new"

abbrev own_request : IpcTaskRequest
own_request = test_request "main" "web:main" "main"

handle_ipc_task_safe_example :
    (get_registered_group "new" (handle_ipc_task test_system granted test_host).1.db
      ≡ get_registered_group "new" test_database)
    ⊎ (((granted.type == "register_group") && source_is_main test_system granted test_host) ≡ true)
      × IsGranted granted "new"
          (get_registered_group "new" (handle_ipc_task test_system granted test_host).1.db)
handle_ipc_task_safe_example = handle_ipc_task_safe test_system granted test_host "new"

register_group_outcome_example :
    (jid_taken (asked test_system granted (checked test_system granted test_host)) test_database
        ≡ true)
      × ((handle_ipc_task test_system granted test_host).0 ≡ raised unique_failed)
      × ((handle_ipc_task test_system granted test_host).1.db.registered_groups
          ≡ test_database.registered_groups)
      × ((handle_ipc_task test_system granted test_host).1.group_dirs ≡ [])
    ⊎ (jid_taken (asked test_system granted (checked test_system granted test_host)) test_database
        ≡ false)
      × ((handle_ipc_task test_system granted test_host).0 ≡ ok tt)
      × ((handle_ipc_task test_system granted test_host).1.group_dirs
          ≡ [] ++ requested_folder granted ∷ [])
      × (get_registered_group
            (requested_folder granted)
            (handle_ipc_task test_system granted test_host).1.db
          ≡ some (asked test_system granted (checked test_system granted test_host)))
unfolding get_registered_group is_complete is_valid_group_folder text_item find_row
register_group_outcome_example = register_group_outcome test_system granted test_host refl refl refl

register_own_folder_example :
    ((handle_ipc_task test_system own_request test_host).0 ≡ ok tt)
    × (source_is_main test_system own_request (handle_ipc_task test_system own_request test_host).1
        ≡ false)
unfolding get_registered_group is_complete is_valid_group_folder text_item find_row jid_taken any
    store_requested_chat
register_own_folder_example =
    register_own_folder test_system own_request test_host refl refl refl refl refl

test_database-IsUnique : IsUnique test_database
unfolding find_row
test_database-IsUnique = record { folders = (refl, (refl, tt)); jids = (refl, (refl, tt)) }

upsert_registered_group-IsUnique_example :
    IsUnique (upsert_registered_group test_group test_database).1
upsert_registered_group-IsUnique_example =
    upsert_registered_group-IsUnique test_group test_database test_database-IsUnique
