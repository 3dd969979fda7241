-- ===== src/Orchestration/Delivery.antt =====
-- What the runs of secnano/runtime_orchestration.py do with replies.
use mathlib.Core.List.{append-nil}
use secnano.Prelude.{
  String, ◌≡◌, refl, ap, opt_or, ◌⧺◌, Option-cases, ◌⊎◌, inl, inr, ◌∙◌, is_empty, Bool, true, false,
  not, Option, none, some, List, [], ◌∷◌, ◌++◌, if◌then◌else◌, arith, ◌==◌, ◌&&◌,
}
use secnano.Types.{Message, RegisteredGroup, ScheduledTask, AgentInput, AgentOutput}
use secnano.Effect.{Result, ok, raised}
use secnano.Router.{format_messages}
use secnano.Orchestration.Prompt.{process_group_messages-runs}
use secnano.Orchestration.{
  Call, emit, set_typing, run_adapter, register_process, send_message, store_bot_message,
  save_session, close_stdin, record_agent_run, notify_idle, Event, on_process, on_output, Adapter,
  Flags, Times, reply_text, reply_calls, output_end, session_calls, kept_session, clears_typing,
  typing_calls, close_calls, confirmed_reply, message_output, message_events, message_result,
  message_finally, adapter_run, flags_after, new_flags, message_input, message_start,
  process_group_messages, task_input, task_in, group_for, handle_scheduled_task, task_output,
  task_events, task_result, task_for,
}

-- What a run does with replies: the texts that it hands to the channel, and those that it stores as
-- messages of the bot.
abbrev pub deliveries : List Call → List Call
deliveries [] = []
deliveries (send_message jid content ∷ calls) = send_message jid content ∷ deliveries calls
deliveries (store_bot_message jid content folder ∷ calls) =
    store_bot_message jid content folder ∷ deliveries calls
deliveries (_ ∷ calls) = deliveries calls

-- A text that the channel takes is stored behind; one that it does not take is not.
abbrev pub delivery : (jid folder : String) → (sends : Bool) → (content : String) → List Call
delivery jid folder true content =
    send_message jid content ∷ store_bot_message jid content folder ∷ []
delivery jid folder false content = send_message jid content ∷ []

abbrev pub delivery_of :
    (jid folder : String) → (has_channel sends : Bool) → Option String → List Call
delivery_of jid folder has_channel sends none = []
delivery_of jid folder false sends (some content) = []
delivery_of jid folder true sends (some content) = delivery jid folder sends content

-- What is to be done with the replies among the events, in order.
abbrev pub wanted_deliveries : (jid folder : String) → (has_channel : Bool) → List Event → List Call
unfolding reply_text
wanted_deliveries jid folder has_channel [] = []
wanted_deliveries jid folder has_channel (on_process name folder_ ∷ rest) =
    wanted_deliveries jid folder has_channel rest
wanted_deliveries jid folder has_channel (on_output output sends ∷ rest) =
    delivery_of jid folder has_channel sends (reply_text output.reply_text)
    ++ wanted_deliveries jid folder has_channel rest

deliveries-append : (xs ys : List Call) → deliveries (xs ++ ys) ≡ deliveries xs ++ deliveries ys
deliveries-append [] ys = refl
deliveries-append (store_bot_message jid content folder ∷ xs) ys =
    ap (λ r. store_bot_message jid content folder ∷ r) (deliveries-append xs ys)
deliveries-append (emit a ∷ xs) ys = deliveries-append xs ys
deliveries-append (set_typing jid b ∷ xs) ys = deliveries-append xs ys
deliveries-append (run_adapter input ∷ xs) ys = deliveries-append xs ys
deliveries-append (register_process jid name folder ∷ xs) ys = deliveries-append xs ys
deliveries-append (send_message jid content ∷ xs) ys =
    ap (λ r. send_message jid content ∷ r) (deliveries-append xs ys)
deliveries-append (save_session folder s ∷ xs) ys = deliveries-append xs ys
deliveries-append (close_stdin jid ∷ xs) ys = deliveries-append xs ys
deliveries-append (record_agent_run run ∷ xs) ys = deliveries-append xs ys
deliveries-append (notify_idle jid ∷ xs) ys = deliveries-append xs ys

deliveries-if :
    (b : Bool) (xs : List Call) → deliveries xs ≡ [] → deliveries (if b then xs else []) ≡ []
deliveries-if true xs h = h
deliveries-if false xs h = refl

deliveries-unless :
    (b : Bool) (xs : List Call) → deliveries xs ≡ [] → deliveries (if b then [] else xs) ≡ []
deliveries-unless true xs h = refl
deliveries-unless false xs h = h

deliveries-append_nil :
    (xs ys : List Call) → deliveries xs ≡ [] → deliveries ys ≡ [] → deliveries (xs ++ ys) ≡ []
deliveries-append_nil xs ys hx hy = deliveries-append xs ys ∙ rw (hx, hy) refl

deliveries-reply :
    (jid folder : String) (has_channel sends : Bool) (confirmed : List Call)
    (content : Option String)
    → deliveries confirmed ≡ []
    → deliveries (reply_calls jid folder has_channel sends confirmed content)
      ≡ delivery_of jid folder has_channel sends content
unfolding reply_calls
deliveries-reply jid folder has_channel sends confirmed none h = refl
deliveries-reply jid folder false sends confirmed (some content) h = refl
deliveries-reply jid folder true false confirmed (some content) h = refl
deliveries-reply jid folder true true confirmed (some content) h = rw h refl

deliveries-session :
    (folder : String) (session_id : Option String)
    → deliveries (session_calls folder session_id) ≡ []
deliveries-session folder none = refl
deliveries-session folder (some session_id) =
    deliveries-unless (is_empty session_id) (save_session folder session_id ∷ []) refl

deliveries-end :
    (jid folder : String) (has_channel keeps : Bool) (output : AgentOutput) (flags : Flags)
    → deliveries (output_end jid folder has_channel keeps output flags) ≡ []
deliveries-end jid folder has_channel keeps output flags =
    let clears = clears_typing has_channel output flags in
    deliveries-append_nil (kept_session keeps folder output.session_id)
      (typing_calls jid clears ++ close_calls jid flags)
      (deliveries-if keeps (session_calls folder output.session_id)
        (deliveries-session folder output.session_id))
      (deliveries-append_nil (typing_calls jid clears) (close_calls jid flags)
        (deliveries-if clears (set_typing jid false ∷ []) refl)
        (deliveries-unless flags.close_requested (close_stdin jid ∷ []) refl))

deliveries-output :
    (jid folder : String) (has_channel keeps sends : Bool) (confirmed : List Call)
    (output : AgentOutput) (flags : Flags)
    → deliveries confirmed ≡ []
    → deliveries (
        reply_calls jid folder has_channel sends confirmed (reply_text output.reply_text)
        ++ output_end jid folder has_channel keeps output flags)
      ≡ delivery_of jid folder has_channel sends (reply_text output.reply_text)
deliveries-output jid folder has_channel keeps sends confirmed output flags h =
    deliveries-append
      (reply_calls jid folder has_channel sends confirmed (reply_text output.reply_text))
      (output_end jid folder has_channel keeps output flags)
    ∙ rw
        (
          deliveries-reply jid folder has_channel sends confirmed (reply_text output.reply_text) h,
          deliveries-end jid folder has_channel keeps output flags,
        )
        (append-nil (delivery_of jid folder has_channel sends (reply_text output.reply_text)))

module _ (group : RegisteredGroup) (run_id trace_id : String) (has_channel : Bool) where
  deliveries-message_events :
      (events : List Event) (flags : Flags)
      → deliveries (message_events group run_id trace_id has_channel events flags).0
        ≡ wanted_deliveries group.jid group.folder has_channel events
  unfolding message_events message_output wanted_deliveries
  deliveries-message_events [] flags = refl
  deliveries-message_events (on_process name folder ∷ rest) flags =
      deliveries-message_events rest flags
  deliveries-message_events (on_output output sends ∷ rest) flags =
      deliveries-append (message_output group run_id trace_id has_channel output sends flags).0
        (message_events group run_id trace_id has_channel rest
          (flags_after has_channel output flags)).0
      ∙ rw
          (
            deliveries-output group.jid group.folder has_channel true sends
                (confirmed_reply group run_id trace_id has_channel) output flags refl,
            deliveries-message_events rest (flags_after has_channel output flags),
          )
          refl

  deliveries-message_result :
      (times : Times) (prompt : String) (result : Result AgentOutput)
      → deliveries (message_result group run_id trace_id has_channel times prompt result) ≡ []
  unfolding message_result
  deliveries-message_result times prompt (ok result) = refl
  deliveries-message_result times prompt (raised e) = refl

  deliveries-finally :
      (flags : Flags) → deliveries (message_finally group run_id trace_id has_channel flags) ≡ []
  deliveries-finally flags =
      deliveries-append_nil (typing_calls group.jid (has_channel && not flags.typing_cleared))
        (notify_idle group.jid ∷ [])
        (deliveries-if (has_channel && not flags.typing_cleared) (set_typing group.jid false ∷ [])
          refl)
        refl

  pub adapter_run-deliveries :
      (adapter : Adapter) (times : Times) (input : AgentInput)
      → deliveries (adapter_run group run_id trace_id has_channel adapter times input)
        ≡ wanted_deliveries group.jid group.folder has_channel (adapter.events input)
  unfolding adapter_run
  adapter_run-deliveries adapter times input =
      let calls =
        message_events group run_id trace_id has_channel (adapter.events input) new_flags in
      let result =
        message_result group run_id trace_id has_channel times input.prompt
          (adapter.outcome input) in
      let last = message_finally group run_id trace_id has_channel calls.1 in
      deliveries-append (if has_channel then set_typing group.jid true ∷ [] else [])
        (run_adapter input ∷ (calls.0 ++ (result ++ last)))
      ∙ rw
          (
            deliveries-if has_channel (set_typing group.jid true ∷ []) refl,
            deliveries-append calls.0 (result ++ last),
            deliveries-message_events (adapter.events input) new_flags,
            deliveries-append_nil result last
                (deliveries-message_result times input.prompt (adapter.outcome input))
                (deliveries-finally calls.1),
          )
          (append-nil (wanted_deliveries group.jid group.folder has_channel (adapter.events input)))

module _ (task : ScheduledTask) (has_channel : Bool) where
  deliveries-task_events :
      (events : List Event) (flags : Flags)
      → deliveries (task_events task has_channel events flags).0
        ≡ wanted_deliveries task.chat_jid task.group_folder has_channel events
  unfolding task_events task_output wanted_deliveries
  deliveries-task_events [] flags = refl
  deliveries-task_events (on_process name folder ∷ rest) flags = deliveries-task_events rest flags
  deliveries-task_events (on_output output sends ∷ rest) flags =
      deliveries-append (task_output task has_channel output sends flags).0
        (task_events task has_channel rest (flags_after has_channel output flags)).0
      ∙ rw
          (
            deliveries-output task.chat_jid task.group_folder has_channel
                (task.context_mode == "group") sends [] output flags refl,
            deliveries-task_events rest (flags_after has_channel output flags),
          )
          refl

  deliveries-task_result :
      (times : Times) (result : Result AgentOutput)
      → deliveries (task_result task has_channel times result).1 ≡ []
  unfolding task_result
  deliveries-task_result times (raised e) = refl
  deliveries-task_result times (ok result) = ground arith

  pub task_for-deliveries :
      (adapter : Adapter) (times : Times) (input : AgentInput)
      → deliveries (task_for task has_channel adapter times input).1
        ≡ wanted_deliveries task.chat_jid task.group_folder has_channel (adapter.events input)
  unfolding task_for
  task_for-deliveries adapter times input =
      let calls = (task_events task has_channel (adapter.events input) new_flags).0 in
      let recorded = (task_result task has_channel times (adapter.outcome input)).1 in
      deliveries-append calls (notify_idle task.chat_jid ∷ recorded)
      ∙ rw
          (
            deliveries-task_events (adapter.events input) new_flags,
            deliveries-task_result times (adapter.outcome input),
          )
          (append-nil
            (wanted_deliveries task.chat_jid task.group_folder has_channel (adapter.events input)))

-- A message run of a group with a channel hands every reply to `send_message` of the channel with the
-- group's jid, once and in order, as the texts leave `format_outbound`, but for empty ones; directly
-- behind, it stores the text for the group's folder if the channel took it, and not if the channel
-- raised; and it sends and stores nothing else, and nothing at all without a channel. This holds
-- even if the adapter raises.
pub process_group_messages-deliveries :
    (adapter : Adapter) (local_time : String → String) (has_channel : Bool) (times : Times)
    (group : RegisteredGroup) (run_id : String) (trace_id : Option String) (recent : List Message)
    (session_id : Option String)
    → deliveries
        (process_group_messages adapter local_time has_channel times group run_id trace_id recent
          session_id).1
      ≡ wanted_deliveries group.jid group.folder has_channel (
          adapter.events (
            message_input group run_id
              (opt_or trace_id run_id)
              has_channel
              session_id
              (format_messages local_time recent)))
process_group_messages-deliveries adapter local_time has_channel times group run_id trace_id recent
      session_id =
    let effective : String = opt_or trace_id run_id in
    let input =
      message_input group run_id effective has_channel session_id
        (format_messages local_time recent) in
    rw
      (process_group_messages-runs adapter local_time has_channel times group run_id trace_id recent
        session_id)
      (deliveries-append (message_start group run_id effective has_channel recent)
          (adapter_run group run_id effective has_channel adapter times input)
        ∙ adapter_run-deliveries group run_id effective has_channel adapter times input)

module _ (task : ScheduledTask) (has_channel : Bool) (adapter : Adapter) (times : Times)
    (groups : List RegisteredGroup) (session_id : Option String) where
  handle_unknown :
      group_for task groups ≡ none
      → handle_scheduled_task task has_channel adapter times groups session_id
        ≡ (raised ("Scheduled task references unknown group: " ⧺ task.group_folder), [])
  unfolding handle_scheduled_task task_in
  handle_unknown unknown = ap (λ g. task_in task has_channel adapter times session_id g) unknown

  handle_found :
      (group : RegisteredGroup)
      → group_for task groups ≡ some group
      → handle_scheduled_task task has_channel adapter times groups session_id
        ≡ task_for task has_channel adapter times (task_input task has_channel session_id group)
  unfolding handle_scheduled_task task_in
  handle_found group found = ap (λ g. task_in task has_channel adapter times session_id g) found

  -- A scheduled task of an unknown folder raises, and calls nothing. Otherwise its run with a channel hands
  -- every reply that is not empty to `send_message` of the channel with the task's jid, once and in
  -- order, and stores it directly behind for the task's folder exactly if the channel took it; it
  -- sends and stores nothing else, and nothing at all without a channel.
  pub handle_scheduled_task-deliveries :
      (group_for task groups ≡ none)
        × (handle_scheduled_task task has_channel adapter times groups session_id
            ≡ (raised ("Scheduled task references unknown group: " ⧺ task.group_folder), []))
      ⊎ ((group : RegisteredGroup) × (group_for task groups ≡ some group)
          × (deliveries (handle_scheduled_task task has_channel adapter times groups session_id).1
              ≡ wanted_deliveries task.chat_jid task.group_folder has_channel
                  (adapter.events (task_input task has_channel session_id group))))
  handle_scheduled_task-deliveries = elim (Option-cases (group_for task groups)) [
    | inl unknown ↦ inl (unknown, handle_unknown unknown)
    | inr (group, found) ↦
        let input = task_input task has_channel session_id group in
        inr (
          group,
          found,
          rw (handle_found group found) (task_for-deliveries task has_channel adapter times input),
        )
  ]
