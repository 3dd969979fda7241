-- ===== src/Orchestration/Calls.antt =====
-- What runs of secnano/runtime_orchestration.py call, and what both `_on_output` share.
use secnano.Prelude.{
  ℕ, String, Bool, true, false, not, ◌&&◌, ◌||◌, Option, none, some, List, [], ◌∷◌, ◌++◌,
  if◌then◌else◌, is_empty, is_some, ◌==◌,
}
use secnano.Types.{RegisteredGroup, AgentInput, AgentOutput}
use secnano.Effect.{Result}
use secnano.Host.{TraceArgs, trace_args}
use secnano.Router.{format_outbound, truncate}

-- The dictionary given to `record_agent_run`.
pub record AgentRun : Type 0 where
  pub run_id : String
  pub trace_id : String
  pub kind : String
  pub jid : String
  pub group_folder : String
  pub started_at : String
  pub completed_at : String
  pub duration_ms : ℕ
  pub status : String
  pub prompt_preview : Option String
  pub reply_preview : Option String
  pub prompt_full : String
  pub reply_full : Option String
  pub error : Option String

-- What a run calls, `emit_trace` and the methods of the channel, the queue and the database.
pub data Call : Type 0 where
  emit : TraceArgs → Call
  set_typing : (jid : String) → Bool → Call
  run_adapter : AgentInput → Call
  register_process : (jid name folder : String) → Call
  send_message : (jid content : String) → Call
  store_bot_message : (jid content folder : String) → Call
  save_session : (folder session_id : String) → Call
  close_stdin : (jid : String) → Call
  record_agent_run : AgentRun → Call
  notify_idle : (jid : String) → Call

-- What the adapter calls back. The Boolean says whether `channel.send_message` returns, where
-- the run gets to it.
pub data Event : Type 0 where
  on_process : (name folder : String) → Event
  on_output : AgentOutput → (sends : Bool) → Event

pub record Adapter : Type 0 where
  pub events : AgentInput → List Event
  pub outcome : AgentInput → Result AgentOutput

-- `typing_cleared` and `close_requested`.
pub record Flags : Type 0 where
  pub typing_cleared : Bool
  pub close_requested : Bool

abbrev pub new_flags : Flags
new_flags = record { typing_cleared = false; close_requested = false }

-- What the clock gives to a run.
pub record Times : Type 0 where
  pub started_at : String
  pub completed_at : String
  pub duration_ms : ℕ

-- `bool(flag)`
abbrev pub truthy : Option Bool → Bool
truthy none = false
truthy (some flag) = flag

abbrev pub run_trace : String → String → String → RegisteredGroup → String → TraceArgs
run_trace trace_id stage status group run_id =
    record (trace_args trace_id "agent_run" stage status) {
      jid = some group.jid;
      group_folder = some group.folder;
      run_id = some run_id;
    }

-- `self.format_outbound(reply) if reply else None`
unfoldable pub reply_full : Option String → Option String
unfolding format_outbound
reply_full none = none
reply_full (some reply) = if is_empty reply then none else some (format_outbound reply)

unfoldable pub reply_preview : Option String → Option String
unfolding reply_full truncate
reply_preview reply = truncate (reply_full reply) 240

-- The text that `_on_output` sends: a reply that is not empty, before and after `format_outbound`.
unfoldable pub reply_text : Option String → Option String
unfolding format_outbound
reply_text none = none
reply_text (some reply) =
    if is_empty reply || is_empty (format_outbound reply)
    then none
    else some (format_outbound reply)

abbrev pub session_calls : String → Option String → List Call
session_calls folder none = []
session_calls folder (some session_id) =
    if is_empty session_id then [] else save_session folder session_id ∷ []

abbrev pub clears_typing : Bool → AgentOutput → Flags → Bool
clears_typing has_channel output flags =
    has_channel
    && not flags.typing_cleared
    && (is_some output.reply_text || output.status == "error")

abbrev pub typing_calls : String → Bool → List Call
typing_calls jid clears = if clears then set_typing jid false ∷ [] else []

abbrev pub close_calls : String → Flags → List Call
close_calls jid flags = if flags.close_requested then [] else close_stdin jid ∷ []

-- Both flags after an output.
abbrev pub flags_after : Bool → AgentOutput → Flags → Flags
flags_after has_channel output flags = record {
  typing_cleared = flags.typing_cleared || clears_typing has_channel output flags;
  close_requested = true;
}

-- Sending a text: it is stored, and `confirmed` follows, only if the channel took it.
unfoldable pub reply_calls : String → String → Bool → Bool → List Call → Option String → List Call
reply_calls jid folder has_channel sends confirmed none = []
reply_calls jid folder has_channel sends confirmed (some content) =
    if not has_channel
    then []
    else if sends
    then send_message jid content ∷ store_bot_message jid content folder ∷ confirmed
    else send_message jid content ∷ []

abbrev pub kept_session : Bool → String → Option String → List Call
kept_session keeps folder session_id = if keeps then session_calls folder session_id else []

-- The calls behind those of the reply, in either `_on_output`.
abbrev pub output_end : String → String → Bool → Bool → AgentOutput → Flags → List Call
output_end jid folder has_channel keeps_session output flags =
    kept_session keeps_session folder output.session_id
    ++ (typing_calls jid (clears_typing has_channel output flags) ++ close_calls jid flags)
