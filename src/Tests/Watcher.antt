-- ===== src/Tests/Watcher.antt =====
-- A round of the watcher over the files of a team.
use secnano.Prelude.{String, ◌≡◌, true, Bool, some, List, [], ◌∷◌}
use secnano.Types.{Json, RegisteredGroup, text}
use secnano.Effect.{Result, ok}
use secnano.Ipc.{GroupIpc, poll_round}
use secnano.Ipc.Changes.{IsSafeChange, has_task_file}
use secnano.Ipc.Tasks.{poll_round-IsSafeChange}
use secnano.Tests.Data.{test_system, test_host}

-- What any file holds: a request to register a group.
abbrev parse_request : String → Result (List (String × Json))
parse_request content = ok (
    ("type", text "register_group")
    ∷ ("jid", text "web:new")
    ∷ ("name", text "New")
    ∷ ("folder", text "new")
    ∷ ("trigger", text "@Andy")
    ∷ [])

abbrev anyone : String → Bool
anyone sender = true

abbrev any_content : RegisteredGroup → String → Bool
any_content group content = true

abbrev team_files : List (String × GroupIpc)
team_files =
    (
      "team",
      record {
        messages = [];
        tasks = record { name = "t1.json"; content = some "{}" } ∷ [];
        chat_metadata = [];
      },
    )
    ∷ (
      "main",
      record {
        messages = [];
        tasks = record { name = "t2.json"; content = some "{}" } ∷ [];
        chat_metadata = [];
      },
    )
    ∷ []

poll_round-IsSafeChange_example :
    IsSafeChange
      (λ folder. has_task_file folder team_files ≡ true)
      test_host
      (poll_round test_system anyone any_content parse_request team_files test_host).1
poll_round-IsSafeChange_example =
    poll_round-IsSafeChange test_system anyone any_content parse_request team_files test_host
