-- ===== src/Subprocess.antt =====
-- secnano/subprocess_runner.py and secnano/runtime.py: what the host reads from an agent process,
-- the output that a run ends with, and the adapter that hands both to the orchestration.
pub mod Blocks
pub mod Final
pub mod Spawn
use secnano.Prelude.{
  ℕ, String, Bool, true, false, ◌||◌, Option, none, some, List, [], ◌∷◌, ◌++◌, map, ◌==◌, ◌⧺◌,
  if◌then◌else◌, eqb, leb, str_len, is_some, show,
}
use secnano.Types.{
  RegisteredGroup, SubprocessConfig, SubprocessInput, SubprocessOutput, AgentInput, AgentOutput,
}
use secnano.Effect.{Result, ok, raised}
use secnano.Orchestration.{Event, on_process, on_output, Adapter}

abbrev pub output_start_marker : String
output_start_marker = "---SECNANO_OUTPUT_START---"

abbrev pub output_end_marker : String
output_end_marker = "---SECNANO_OUTPUT_END---"

-- What comes from the pipe until its end: a line, decoded and without its newline, a line over the
-- limit of the stream, at which `readline` raises a ValueError with the text `error`, or two
-- seconds in which no line comes.
pub data Read : Type 0 where
  line : String → Read
  too_long : (error : String) → Read
  silence : Read

-- Where `_collect_output` waits for a line: in its loop, for the JSON line, or for the end marker.
pub data Place : Type 0 where
  in_loop : Place
  at_json : Place
  at_end : (json_line : String) → Place

-- The members of the JSON object in a block. The agent writes texts and nulls only.
abbrev pub Members : Type 0
Members = List (String × Option String)

unfoldable pub get_member : String → Members → Option (Option String)
get_member key [] = none
get_member key ((k, v) ∷ rest) = if k == key then some v else get_member key rest

-- `data.get(key)`
abbrev member_or_none : Option (Option String) → Option String
member_or_none none = none
member_or_none (some v) = v

-- `data.get("status", "error")`. A null status, which the agent never writes, is left as a text.
abbrev status_member : Option (Option String) → String
status_member none = "error"
status_member (some none) = "None"
status_member (some (some s)) = s

unfoldable pub output_of : Members → SubprocessOutput
unfolding get_member
output_of data_ = record {
  status = status_member (get_member "status" data_);
  result = member_or_none (get_member "result" data_);
  new_session_id = member_or_none (get_member "new_session_id" data_);
  error = member_or_none (get_member "error" data_);
}

-- `json.loads` on one line; `none` is a `JSONDecodeError`.
module _ (loads : String → Option Members) where
  abbrev with_block :
      Option Members → List SubprocessOutput × Option String → List SubprocessOutput × Option String
  with_block none collected = collected
  with_block (some members) collected = (output_of members ∷ collected.0, collected.1)

  -- `_collect_output`, from where it waits: the outputs, of which each is handed to `on_output`, and
  -- what `readline` raises, if it does. Only the loop's own `readline` has the time limit.
  unfoldable pub collect_output : Place → List Read → List SubprocessOutput × Option String
  unfolding output_of
  collect_output place [] = ([], none)
  collect_output place (too_long error ∷ rest) = ([], some error)
  collect_output in_loop (silence ∷ rest) = ([], none)
  collect_output in_loop (line text ∷ rest) =
      let inside = collect_output at_json rest in
      let outside = collect_output in_loop rest in
      if text == output_start_marker then inside else outside
  collect_output at_json (silence ∷ rest) = collect_output at_json rest
  collect_output at_json (line text ∷ rest) = collect_output (at_end text) rest
  collect_output (at_end json_line) (silence ∷ rest) = collect_output (at_end json_line) rest
  collect_output (at_end json_line) (line text ∷ rest) =
      let others = collect_output in_loop rest in
      if text == output_end_marker then with_block (loads json_line) others else others

abbrev pub is_meaningful : SubprocessOutput → Bool
is_meaningful output = is_some output.result || output.status == "error"

-- The loop over `reversed(outputs)`: the last output with a result or an error.
unfoldable pub last_meaningful : List SubprocessOutput → Option SubprocessOutput
last_meaningful [] = none
last_meaningful (output ∷ outputs) =
    let later = last_meaningful outputs in
    elim later [
      | some found ↦ some found
      | none ↦ if is_meaningful output then some output else none
    ]

-- `outputs[-1]`
unfoldable pub last_output : SubprocessOutput → List SubprocessOutput → SubprocessOutput
last_output output [] = output
last_output output (next ∷ outputs) = last_output next outputs

abbrev pub error_output : String → SubprocessOutput
error_output error = record {
  status = "error";
  result = none;
  new_session_id = none;
  error = some error;
}

abbrev pub or_last : Option SubprocessOutput → String → List SubprocessOutput → SubprocessOutput
or_last (some found) stderr outputs = found
or_last none stderr [] = error_output ("No output from subprocess. stderr: " ⧺ stderr)
or_last none stderr (output ∷ outputs) = last_output output outputs

-- The end of `run_subprocess_agent`; `stderr` is the text's first 200 characters.
unfoldable pub final_output : String → List SubprocessOutput → SubprocessOutput
unfolding last_meaningful last_output
final_output stderr outputs = or_last (last_meaningful outputs) stderr outputs

-- The limit in bytes of the `StreamReader`, with which the process is spawned by default.
abbrev pub readline_limit : ℕ
readline_limit = 65536

-- A line within the limit. `json.dumps` escapes what is not ASCII, so that bytes are characters.
abbrev pub fits : (Members → String) → Members → Bool
fits dumps output = leb (str_len (dumps output)) readline_limit

-- `write_output` of agent_runner/main.py, as the lines that reach the host; `limit_error` is the
-- text of the ValueError.
unfoldable pub write_output : (Members → String) → (limit_error : String) → Members → List Read
write_output dumps limit_error output =
    line output_start_marker
    ∷ (if fits dumps output then line (dumps output) else too_long limit_error)
    ∷ line output_end_marker
    ∷ []

-- How `run_subprocess_agent` goes: the exceptions at spawning, at writing to stdin and while the
-- output is collected, the time limit for the whole output, or the two pipes read to their end.
pub data Course : Type 0 where
  spawn_failed : (error : String) → Course
  stdin_failed : (error : String) → Course
  timed_out : List Read → Course
  collect_failed : List Read → (error : String) → Course
  finished : List Read → (stderr : String) → Course

-- `group.subprocess_config.timeout`, if it is there and not 0.
unfoldable pub time_limit : ℕ → Option SubprocessConfig → ℕ
time_limit default none = default
time_limit default (some config) = elim config.timeout [
  | none ↦ default
  | some n ↦ if eqb n 0 then default else n
]

abbrev pub process_event : RegisteredGroup → Event
process_event group = on_process ("agent-" ⧺ group.folder) group.folder

abbrev pub input_of : AgentInput → SubprocessInput
input_of input = record {
  prompt = input.prompt;
  group_folder = input.group_folder;
  chat_jid = input.chat_jid;
  is_main = input.is_main;
  session_id = input.session_id;
  is_scheduled_task = input.mode == "scheduled_task";
  assistant_name = "Andy";
}

abbrev pub agent_output : AgentInput → SubprocessOutput → AgentOutput
agent_output input output = record {
  run_id = input.run_id;
  status = output.status;
  reply_text = output.result;
  session_id = output.new_session_id;
  error = output.error;
}

-- What the collection raises ends the run with an error.
abbrev pub raised_or : Option String → SubprocessOutput → SubprocessOutput
raised_or none output = output
raised_or (some error) output = error_output error

-- `agent` says how the process goes for an input, `sends` whether the channel takes a reply, and
-- `default` is SUBPROCESS_TIMEOUT.
module _ (loads : String → Option Members) (default : ℕ) (group : RegisteredGroup)
    (sends : AgentOutput → Bool) (agent : SubprocessInput → Course) where
  -- The outputs that are handed to `on_output`.
  unfoldable pub forwarded : Course → List SubprocessOutput
  unfolding collect_output
  forwarded (spawn_failed error) = []
  forwarded (stdin_failed error) = []
  forwarded (timed_out reads) = (collect_output loads in_loop reads).0
  forwarded (collect_failed reads error) = (collect_output loads in_loop reads).0
  forwarded (finished reads stderr) = (collect_output loads in_loop reads).0

  unfoldable pub run_result : Course → SubprocessOutput
  unfolding final_output collect_output time_limit
  run_result (spawn_failed error) = error_output error
  run_result (stdin_failed error) = error_output error
  run_result (timed_out reads) = raised_or (collect_output loads in_loop reads).1 (
      error_output
        ("Subprocess timed out after " ⧺ (show (time_limit default group.subprocess_config) ⧺ "s")))
  run_result (collect_failed reads error) =
      raised_or (collect_output loads in_loop reads).1 (error_output error)
  run_result (finished reads stderr) =
      let collected = collect_output loads in_loop reads in
      raised_or collected.1 (final_output stderr collected.0)

  abbrev output_event : AgentInput → SubprocessOutput → Event
  output_event input output =
      on_output (agent_output input output) (sends (agent_output input output))

  -- A process that was not spawned is not registered.
  abbrev process_events : Course → List Event
  process_events (spawn_failed error) = []
  process_events _ = process_event group ∷ []

  -- `SubprocessRuntimeAdapter.run`
  abbrev pub subprocess_adapter : Adapter
  unfolding forwarded run_result
  subprocess_adapter = record {
    events = λ input.
        process_events (agent (input_of input))
        ++ map (output_event input) (forwarded (agent (input_of input)));
    outcome = λ input. ok (agent_output input (run_result (agent (input_of input))));
  }
