-- ===== src/Orchestration/MessageRun.antt =====
-- `process_group_messages` of secnano/runtime_orchestration.py.
use secnano.Prelude.{
  String, Bool, true, false, not, ◌&&◌, Option, none, some, List, [], ◌∷◌, ◌++◌, length,
  if◌then◌else◌, is_empty, opt_or, strip, ◌==◌, first,
}
use secnano.Types.{RegisteredGroup, AgentInput, AgentOutput, Message, Json, number, text}
use secnano.Effect.{Result, ok, raised}
use secnano.Host.{TraceArgs}
use secnano.Router.{format_messages, truncate}
use secnano.Orchestration.Calls.{
  AgentRun, Call, emit, set_typing, run_adapter, register_process, record_agent_run, notify_idle,
  Event, on_process, on_output, Adapter, Flags, new_flags, Times, truthy, run_trace, reply_full,
  reply_preview, reply_text, flags_after, reply_calls, output_end,
}

module _ (group : RegisteredGroup) (run_id trace_id : String) (has_channel : Bool) where
  abbrev pub confirmed_reply : List Call
  confirmed_reply = emit (run_trace trace_id "agent_run.reply_sent" "success" group run_id) ∷ []

  -- `_on_output` of `process_group_messages`, and the flags that it leaves.
  unfoldable pub message_output : AgentOutput → Bool → Flags → List Call × Flags
  unfolding reply_text reply_calls
  message_output output sends flags = (
    emit (run_trace trace_id "agent_run.output_received" output.status group run_id)
          ∷ reply_calls group.jid group.folder has_channel sends confirmed_reply
              (reply_text output.reply_text)
        ++ output_end group.jid group.folder has_channel true output flags,
    flags_after has_channel output flags,
  )

  unfoldable pub message_events : List Event → Flags → List Call × Flags
  unfolding message_output
  message_events [] flags = ([], flags)
  message_events (on_process name folder ∷ rest) flags =
      let (calls, left) = message_events rest flags in
      (register_process group.jid name folder ∷ calls, left)
  message_events (on_output output sends ∷ rest) flags =
      let (first, next) = message_output output sends flags in
      let (calls, left) = message_events rest next in (first ++ calls, left)

  abbrev pub error_details : Option String → List (String × Json)
  error_details none = []
  error_details (some error) = if is_empty error then [] else ("error", text error) ∷ []

  abbrev pub result_trace : AgentOutput → TraceArgs
  result_trace result =
      if result.status == "error"
      then record (run_trace trace_id "agent_run.failed" "error" group run_id) {
        details = error_details result.error;
      }
      else run_trace trace_id "agent_run.completed" "success" group run_id

  abbrev pub message_run : Times → String → AgentOutput → AgentRun
  message_run times prompt result = record {
    run_id = run_id;
    trace_id = trace_id;
    kind = "message";
    jid = group.jid;
    group_folder = group.folder;
    started_at = times.started_at;
    completed_at = times.completed_at;
    duration_ms = times.duration_ms;
    status = result.status;
    prompt_preview = truncate (some prompt) 240;
    reply_preview = reply_preview result.reply_text;
    prompt_full = prompt;
    reply_full = reply_full result.reply_text;
    error = result.error;
  }

  -- What follows `runtime_adapter.run`, up to the `finally` block.
  unfoldable pub message_result : Times → String → Result AgentOutput → List Call
  unfolding truncate reply_full reply_preview
  message_result times prompt (raised e) = []
  message_result times prompt (ok result) =
      emit (result_trace result) ∷ record_agent_run (message_run times prompt result) ∷ []

  abbrev pub message_finally : Flags → List Call
  message_finally flags =
      (if has_channel && not flags.typing_cleared then set_typing group.jid false ∷ [] else [])
      ++ notify_idle group.jid ∷ []

  abbrev pub message_input : Option String → String → AgentInput
  message_input session_id prompt = record {
    run_id = run_id;
    trace_id = trace_id;
    group_folder = group.folder;
    chat_jid = group.jid;
    is_main = truthy group.is_main;
    mode = "message";
    prompt = prompt;
    session_id = session_id;
  }

  abbrev pub message_start : List Message → List Call
  message_start recent =
      emit (run_trace trace_id "agent_run.started" "accepted" group run_id)
      ∷ emit record (run_trace trace_id "agent_run.prompt_prepared" "success" group run_id) {
        details = ("message_count", number (length recent)) ∷ [];
      }
      ∷ []

  -- The run itself, once there is a prompt.
  unfoldable pub adapter_run : Adapter → Times → AgentInput → List Call
  unfolding message_events message_result
  adapter_run adapter times input =
      let (calls, flags) = message_events (adapter.events input) new_flags in
      (if has_channel then set_typing group.jid true ∷ [] else [])
      ++ (run_adapter input
          ∷ (calls
              ++ (message_result times input.prompt (adapter.outcome input)
                  ++ message_finally flags)))

-- The exception that leaves a run.
abbrev pub error_of {ℓ} : {A : Type ℓ} → Result A → Option String
error_of (ok a) = none
error_of (raised e) = some e

module _ (adapter : Adapter) (local_time : String → String) (has_channel : Bool)
    (times : Times) where
  -- `process_group_messages`: `recent` is `get_messages(chat_jid, limit=50)`, `session_id` the
  -- session stored for the folder and `run_id` a fresh UUID. The first result is the exception.
  unfoldable pub process_group_messages :
      (group : RegisteredGroup)
      → (run_id : String) → (trace_id : Option String) → (recent : List Message)
      → (session_id : Option String) → Option String × List Call
  unfolding format_messages strip adapter_run
  process_group_messages group run_id trace_id recent session_id =
      let effective : String = opt_or trace_id run_id in
      let prompt = format_messages local_time recent in
      let input = message_input group run_id effective has_channel session_id prompt in
      let start = message_start group run_id effective has_channel recent in
      if is_empty (strip prompt) then (none, start) else (
        error_of (adapter.outcome input),
        start ++ adapter_run group run_id effective has_channel adapter times input,
      )
