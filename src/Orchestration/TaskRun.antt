-- ===== src/Orchestration/TaskRun.antt =====
-- `handle_scheduled_task` of secnano/runtime_orchestration.py.
use secnano.Prelude.{
  String, Bool, Option, none, some, List, [], ◌∷◌, ◌++◌, if◌then◌else◌, opt_or, ◌==◌, first, ◌⧺◌,
}
use secnano.Types.{RegisteredGroup, ScheduledTask, AgentInput, AgentOutput}
use secnano.Effect.{Result, ok, raised}
use secnano.Router.{truncate}
use secnano.Orchestration.Calls.{
  AgentRun, Call, run_adapter, register_process, record_agent_run, notify_idle, Event, on_process,
  on_output, Adapter, Flags, new_flags, Times, truthy, reply_full, reply_preview, reply_text,
  flags_after, reply_calls, output_end,
}

abbrev pub group_for : ScheduledTask → List RegisteredGroup → Option RegisteredGroup
group_for task groups = first (λ g. g.folder == task.group_folder) groups

module _ (task : ScheduledTask) (has_channel : Bool) where
  -- `_on_output` of `handle_scheduled_task`.
  unfoldable pub task_output : AgentOutput → Bool → Flags → List Call × Flags
  unfolding reply_text reply_calls
  task_output output sends flags = (
    reply_calls task.chat_jid task.group_folder has_channel sends [] (reply_text output.reply_text)
        ++ output_end task.chat_jid task.group_folder has_channel (task.context_mode == "group")
            output flags,
    flags_after has_channel output flags,
  )

  unfoldable pub task_events : List Event → Flags → List Call × Flags
  unfolding task_output
  task_events [] flags = ([], flags)
  task_events (on_process name folder ∷ rest) flags =
      let (calls, left) = task_events rest flags in
      (register_process task.chat_jid name folder ∷ calls, left)
  task_events (on_output output sends ∷ rest) flags =
      let (first, next) = task_output output sends flags in
      let (calls, left) = task_events rest next in (first ++ calls, left)

  -- The dictionary recorded for a run, failed or completed.
  abbrev pub task_run : Times → Option String → Option String → AgentOutput → AgentRun
  task_run times preview full result = record {
    run_id = task.id;
    trace_id = task.id;
    kind = "scheduled_task";
    jid = task.chat_jid;
    group_folder = task.group_folder;
    started_at = times.started_at;
    completed_at = times.completed_at;
    duration_ms = times.duration_ms;
    status = result.status;
    prompt_preview = truncate (some task.prompt) 240;
    reply_preview = preview;
    prompt_full = task.prompt;
    reply_full = full;
    error = result.error;
  }

  -- What follows `runtime_adapter.run`.
  unfoldable pub task_result : Times → Result AgentOutput → Result (Option String) × List Call
  unfolding truncate reply_full reply_preview
  task_result times (raised e) = (raised e, [])
  task_result times (ok result) =
      if result.status == "error"
      then (
        raised (opt_or result.error "Scheduled task subprocess failed"),
        record_agent_run (task_run times none none result) ∷ [],
      )
      else (
        ok result.reply_text,
        record_agent_run (
              task_run times (reply_preview result.reply_text) (reply_full result.reply_text)
                result)
            ∷ [],
      )

  abbrev pub task_input : Option String → RegisteredGroup → AgentInput
  task_input stored group = record {
    run_id = task.id;
    trace_id = task.id;
    group_folder = task.group_folder;
    chat_jid = task.chat_jid;
    is_main = truthy group.is_main;
    mode = "scheduled_task";
    prompt = task.prompt;
    session_id = if task.context_mode == "group" then stored else none;
  }

  -- The run for the group found.
  unfoldable pub task_for : Adapter → Times → AgentInput → Result (Option String) × List Call
  unfolding task_events task_result
  task_for adapter times input =
      let (calls, flags) = task_events (adapter.events input) new_flags in
      let (outcome, recorded) = task_result times (adapter.outcome input) in
      (outcome, run_adapter input ∷ (calls ++ (notify_idle task.chat_jid ∷ recorded)))

  -- What follows the choice of the group: without one, a `RuntimeError`.
  unfoldable pub task_in :
      Adapter → Times → Option String → Option RegisteredGroup → Result (Option String) × List Call
  unfolding task_for
  task_in adapter times stored none =
      (raised ("Scheduled task references unknown group: " ⧺ task.group_folder), [])
  task_in adapter times stored (some group) = task_for adapter times (task_input stored group)

  -- `handle_scheduled_task`: `stored` is the session stored for the folder.
  unfoldable pub handle_scheduled_task :
      Adapter → Times → List RegisteredGroup → Option String → Result (Option String) × List Call
  unfolding task_in
  handle_scheduled_task adapter times groups stored =
      task_in adapter times stored (group_for task groups)
