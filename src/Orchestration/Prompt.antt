-- ===== src/Orchestration/Prompt.antt =====
-- The prompt of a run is never empty, so a message run always reaches the adapter.
use secnano.Prelude.{
  String, ◌≡◌, refl, Bool, false, Option, List, [], ◌∷◌, ◌++◌, is_empty, opt_or, strip,
}
use secnano.Types.{RegisteredGroup, Message}
use secnano.Router.{format_messages}
use secnano.Orchestration.{
  Adapter, Times, adapter_run, process_group_messages, message_input, message_start, error_of,
}

pub format_messages-strip :
    (local_time : String → String) (recent : List Message)
    → is_empty (strip (format_messages local_time recent)) ≡ false
unfolding format_messages strip
format_messages-strip local_time [] = refl
format_messages-strip local_time (msg ∷ rest) = refl

module _ (adapter : Adapter) (local_time : String → String) (has_channel : Bool) (times : Times)
    (group : RegisteredGroup) (run_id : String) (trace_id : Option String) (recent : List Message)
    (session_id : Option String) where
  -- The branch of an empty prompt is never taken: whatever messages there are, the run starts,
  -- calls the adapter and hands on the adapter's exception, if it raises one.
  pub process_group_messages-runs :
      process_group_messages adapter local_time has_channel times group run_id trace_id recent
        session_id
      ≡ (
        error_of (
            adapter.outcome (
              message_input group run_id
                (opt_or trace_id run_id)
                has_channel
                session_id
                (format_messages local_time recent))),
        message_start group run_id (opt_or trace_id run_id) has_channel recent
            ++ adapter_run group run_id (opt_or trace_id run_id) has_channel adapter times (
                message_input group run_id
                  (opt_or trace_id run_id)
                  has_channel
                  session_id
                  (format_messages local_time recent)),
      )
  unfolding process_group_messages
  process_group_messages-runs = rw (format_messages-strip local_time recent) refl
