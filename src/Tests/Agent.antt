-- ===== src/Tests/Agent.antt =====
-- A run of the agent's process that uses a tool, and a wait of it.
use secnano.Prelude.{
  true, ◌≡◌, str_le, Bool, map, opt_or, ◌==◌, refl, ℕ, ◌+◌, ◌*◌, ◌≤◌, String, false, Option, none,
  some, List, [], ◌∷◌, arith, eqb, if◌then◌else◌,
}
use secnano.Types.{Json, text}
use secnano.Effect.{Result, ok}
use secnano.AgentTools.Dispatch.{ToolWorld}
use secnano.AgentRunner.Session.{absent, text_block, tool_use}
use secnano.AgentRunner.Loop.{Response, Launch, main}
use secnano.AgentRunner.Requests.{IsLogged, main-IsLogged}
use secnano.AgentRunner.Waiting.{InputDir, wait_for_ipc_message}
use secnano.AgentRunner.Polls.{EndsAt, wait_for_ipc_message-EndsAt}
use secnano.Types.{SubprocessInput, AgentOutput}
use secnano.Subprocess.{Members, get_member, Course, spawn_failed, run_result}
use secnano.Subprocess as Host
use secnano.Subprocess.Blocks.{blocks}
use secnano.JsonValue.{text_field}
use secnano.Ipc.{json_stem}
use secnano.GroupQueue.{message, close_sentinel}
use secnano.AgentRunner.Waiting.{received, closed}
use secnano.Handshake.Messages.{empty_dir, put_file, put_all, sent_all, looks, looks-received}
use secnano.Handshake.Answers.{members_of, Relays, main-Relays}
use secnano.Tests.Data.{test_group}
use secnano.Tests.Disk.{Disk, test_world, test_disk}

abbrev pub always : ℕ → ToolWorld Disk
always n = test_world

abbrev pub numbered_id : ℕ → String
numbered_id n = "session"

abbrev test_launch : Launch
test_launch = record {
  input = ok (("prompt", text "read a.txt") ∷ ("group_folder", text "team") ∷ []);
  api_key = "key";
  client_error = none;
}

abbrev pub test_responses : List (Result Response)
test_responses =
    ok (record {
      content = text_block "reading" ∷ tool_use "t1" "read_file" (("path", text "a.txt") ∷ []) ∷ [];
      stop_reason = "tool_use";
    })
    ∷ ok (record { content = text_block "one two two" ∷ []; stop_reason = "end_turn" })
    ∷ ok (record { content = text_block "yes" ∷ []; stop_reason = "end_turn" })
    ∷ []

main-IsLogged_example :
    IsLogged
      (main always "/work" numbered_id test_launch ("sure?" ∷ []) test_responses absent test_disk).1
main-IsLogged_example =
    main-IsLogged always "/work" numbered_id test_launch ("sure?" ∷ []) test_responses absent
      test_disk tt

abbrev parse_content : String → Option (List (String × Json))
parse_content content = some (("content", text content) ∷ [])

-- There is a message at the second look.
abbrev test_looks : ℕ → Option InputDir
test_looks n =
    if eqb n 0
    then some (record { closing = false; entries = [] })
    else some (record {
      closing = false;
      entries = record { name = "1.json"; content = some "more" } ∷ [];
    })

abbrev half_seconds : ℕ → ℕ
half_seconds n = n * 500

wait_for_ipc_message-EndsAt_example :
    (last : ℕ) × (last ≤ 4)
    × EndsAt parse_content test_looks half_seconds
        (0 + 2000)
        0
        last
        (wait_for_ipc_message parse_content test_looks half_seconds 0 2000 5).end
wait_for_ipc_message-EndsAt_example =
    wait_for_ipc_message-EndsAt parse_content test_looks half_seconds 0 2000 4 (λ k. omega arith)
      (omega arith) (omega arith)

abbrev done_responses : List (Result Response)
done_responses = ok (record { content = text_block "done" ∷ []; stop_reason = "end_turn" }) ∷ []

-- A format for the outputs of this run.
abbrev result_members : Option String → Members
result_members result =
    ("status", some "success") ∷ ("result", result) ∷ ("new_session_id", some "session") ∷ []

abbrev dump_outputs : Members → String
dump_outputs members = elim (get_member "result" members) [
  | none ↦ "null"
  | some result ↦ opt_or result "null"
]

abbrev load_outputs : String → Option Members
load_outputs s = some (result_members (if s == "null" then none else some s))

abbrev default_course : SubprocessInput → Course
default_course input = spawn_failed "not used"

abbrev no_sends : AgentOutput → Bool
no_sends output = false

main-Relays_example :
    Relays numbered_id
      (main always "/work" numbered_id test_launch [] done_responses absent test_disk).0
      1
      (main always "/work" numbered_id test_launch [] done_responses absent test_disk).1.outputs
      true
      "too long"
      (run_result load_outputs 1800 test_group no_sends default_course (
        Host.finished
          (blocks dump_outputs "too long" (
            map members_of
              (main always "/work" numbered_id test_launch [] done_responses absent
                test_disk).1.outputs))
          ""))
unfolding main get_member secnano.JsonValue.text_field secnano.AgentRunner.Loop.conversation
main-Relays_example =
    main-Relays always "/work" numbered_id test_launch [] done_responses absent test_disk
      dump_outputs "too long" load_outputs 1800 test_group no_sends default_course ""
      (refl, (refl, tt))

abbrev dump_content : List (String × Json) → String
dump_content fields = text_field "content" "" fields

abbrev two_messages : List (String × String)
two_messages = ("100_a.json", "first") ∷ ("200_b.json", "second") ∷ []

looks-received_example :
    (looks parse_content 2 (put_all dump_content empty_dir (sent_all "team" two_messages))
      ≡ some (received "first") ∷ some (received "second") ∷ [])
    × (looks parse_content 1 (
          put_all dump_content
            (put_file dump_content
              (put_all dump_content empty_dir (message "team" "300_c.json" "unread" ∷ []))
              (close_sentinel "team"))
            (message "team" "400_d.json" "late" ∷ []))
        ≡ some closed ∷ [])
unfolding json_stem str_le text_field
looks-received_example =
    looks-received dump_content parse_content "team" two_messages
      (message "team" "300_c.json" "unread" ∷ []) (message "team" "400_d.json" "late" ∷ [])
      (refl, ((refl, refl), tt), (refl, tt, tt)) (refl, (refl, tt))
