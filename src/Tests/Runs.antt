-- ===== src/Tests/Runs.antt =====
-- Agent runs of a team, for a message and for a scheduled task.
use secnano.Prelude.{String, ◌≡◌, ◌⊎◌, true, false, none, some, [], ◌∷◌, ◌⧺◌}
use secnano.Types.{RegisteredGroup}
use secnano.Effect.{ok, raised}
use secnano.Orchestration.{
  Adapter, Times, on_process, on_output, task_input, group_for, reply_text, process_group_messages,
  handle_scheduled_task, send_message, store_bot_message,
}
use secnano.Orchestration.Delivery.{
  deliveries, wanted_deliveries, process_group_messages-deliveries,
  handle_scheduled_task-deliveries,
}
use secnano.Tests.Data.{test_group, test_message, test_output, test_task}

abbrev test_adapter : Adapter
test_adapter = record {
  events = λ input.
      on_process "agent" "team"
      ∷ on_output (test_output (some "hello")) true
      ∷ on_output (test_output (some "lost")) false
      ∷ on_output (test_output none) true
      ∷ [];
  outcome = λ input. ok (test_output (some "hello"));
}

abbrev test_times : Times
test_times = record {
  started_at = "2026-01-01T00:00:00+00:00";
  completed_at = "2026-01-01T00:00:05+00:00";
  duration_ms = 5000;
}

abbrev same_time : String → String
same_time timestamp = timestamp

process_group_messages-deliveries_example :
    deliveries
      (process_group_messages test_adapter same_time true test_times test_group "r1"
        (some "m3")
        (test_message "m1" "2025-12-01" ∷ [])
        none).1
    ≡ send_message test_group.jid "hello"
      ∷ store_bot_message test_group.jid "hello" test_group.folder
      ∷ send_message test_group.jid "lost"
      ∷ []
unfolding reply_text
process_group_messages-deliveries_example =
    process_group_messages-deliveries test_adapter same_time true test_times test_group "r1"
      (some "m3") (test_message "m1" "2025-12-01" ∷ []) none

handle_scheduled_task-deliveries_example :
    (group_for test_task (test_group ∷ []) ≡ none)
      × (handle_scheduled_task test_task true test_adapter test_times (test_group ∷ []) none
          ≡ (raised ("Scheduled task references unknown group: " ⧺ "team"), []))
    ⊎ ((group : RegisteredGroup) × (group_for test_task (test_group ∷ []) ≡ some group)
        × (deliveries
              (handle_scheduled_task test_task true test_adapter test_times
                (test_group ∷ [])
                none).1
            ≡ wanted_deliveries test_task.chat_jid test_task.group_folder true
                (test_adapter.events (task_input test_task true none group))))
handle_scheduled_task-deliveries_example =
    handle_scheduled_task-deliveries test_task true test_adapter test_times (test_group ∷ []) none

abbrev raising_adapter : Adapter
raising_adapter = record {
  events = λ input. on_output (test_output none) true ∷ on_output (test_output none) true ∷ [];
  outcome = λ input. raised "timeout";
}
