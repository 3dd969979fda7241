-- ===== src/Handshake/Stdin.antt =====
-- What `main` of agent_runner/main.py makes of the host's input.
use secnano.Prelude.{
  ℕ, String, ◌≡◌, refl, Option, none, some, List, [], ◌∷◌, false, if◌then◌else◌, is_empty, ◌⧺◌,
}
use secnano.Types.{Json, RegisteredGroup, SubprocessInput}
use secnano.Effect.{Result, ok}
use secnano.JsonValue.{text_field, flag_field, optional_field}
use secnano.Settings.{Settings}
use secnano.Settings.Environ.{Variables, var_or}
use secnano.Subprocess.Spawn.{spawn, stdin_payload, json_text}
use secnano.AgentTools.Dispatch.{ToolWorld}
use secnano.AgentRunner.Session.{SessionFile, load_session, build_system_prompt}
use secnano.AgentRunner.Loop.{
  Agent, Exit, Response, conversation, new_agent, scheduled_prefix, main,
}
use secnano.AgentRunner.Environment.{launch_of}

-- The conversation that the host asks for.
abbrev pub asked_conversation :
    {Disk : Type 0}
    → (ℕ → ToolWorld Disk)
    → (cwd : String) → (session_id : ℕ → String) → SubprocessInput
    → (follow_ups : List String) → List (Result Response)
    → SessionFile
    → Disk
    → Exit × Agent Disk
asked_conversation world cwd session_id input follow_ups responses session d =
    conversation world cwd
      (build_system_prompt cwd input.group_folder input.is_main input.assistant_name) session_id
      ((if input.is_scheduled_task then scheduled_prefix ⧺ input.prompt else input.prompt)
        ∷ follow_ups)
      responses (new_agent (load_session input.session_id session) session d)

read_session_id :
    (input : SubprocessInput) → optional_field "session_id" (stdin_payload input) ≡ input.session_id
unfolding optional_field secnano.JsonValue.get_item
read_session_id input = go input.session_id
  where
    go : (o : Option String) → optional_field "session_id" (("session_id", json_text o) ∷ []) ≡ o
    go none = refl
    go (some s) = refl

-- If `json.loads` undoes `json.dumps` on what the host writes, the prompt is not empty, the process has an
-- API key and its client can be made, the process holds the conversation that the host's input asks
-- for: its prompt, announced as a scheduled one where it is one, in its session, and with its group
-- and assistant in the system prompt.
pub main-asked_conversation :
    {Disk : Type 0} (world : ℕ → ToolWorld Disk) (cwd : String) (session_id : ℕ → String)
    (join : String → String → String) (settings : Settings) (environ : Variables)
    (dumps : List (String × Json) → String) (loads : String → Result (List (String × Json)))
    (group : RegisteredGroup) (input : SubprocessInput) (follow_ups : List String)
    (responses : List (Result Response)) (session : SessionFile) (d : Disk)
    → loads (dumps (stdin_payload input)) ≡ ok (stdin_payload input)
    → is_empty input.prompt ≡ false
    → is_empty (var_or "ANTHROPIC_API_KEY" "" (spawn join settings environ group input).env) ≡ false
    → main world cwd session_id
        (launch_of
          (spawn join settings environ group input).env
          (loads (dumps (spawn join settings environ group input).stdin))
          none)
        follow_ups
        responses
        session
        d
      ≡ asked_conversation world cwd session_id input follow_ups responses session d
unfolding spawn main text_field flag_field
main-asked_conversation world cwd session_id join settings environ dumps loads group input
      follow_ups responses session d back prompt key =
    rw (back, prompt, key, read_session_id input) refl
