-- ===== src/AgentRunner/Loop.antt =====
-- `main` of agent_runner/main.py: the turns of a conversation, given what the API answers in turn and
-- the prompts that the waits for IPC messages bring.
use secnano.Prelude.{
  ℕ, ◌+◌, String, Option, none, some, List, [], ◌∷◌, ◌++◌, ◌==◌, if◌then◌else◌, is_empty, length,
  ◌⧺◌,
}
use secnano.Types.{Json}
use secnano.Effect.{Result, ok, raised}
use secnano.JsonValue.{text_field, optional_field, flag_field}
use secnano.AgentTools.Dispatch.{ToolWorld, execute_tool}
use secnano.AgentRunner.Session.{
  Block, text_block, tool_use, other_block, ToolResult, Turn, user_turn, results_turn,
  assistant_turn, SessionFile, load_session, save_session, build_system_prompt,
}

pub record Response : Type 0 where
  pub content : List Block
  pub stop_reason : String

-- The arguments of `client.messages.create` that change.
pub record Request : Type 0 where
  pub system : String
  pub turns : List Turn

-- What `write_output` prints; `none` for a member that is left out or null.
pub record Output : Type 0 where
  pub status : String
  pub result : Option String
  pub new_session_id : Option String
  pub error : Option String

-- The state of the process: the file system, the session file, the conversation, and what it sent to
-- the API and printed so far. `saves` counts the session ids that `save_session` made, and `calls` the
-- calls of tools; `world n` is what the `n`-th call meets.
pub record Agent (Disk : Type 0) : Type 0 where
  pub disk : Disk
  pub session : SessionFile
  pub turns : List Turn
  pub requests : List Request
  pub outputs : List Output
  pub saves : ℕ
  pub calls : ℕ

-- How the inner loop ends; `no_answer` is where the API did not answer any more. The responses that
-- are left come with `ended`.
pub data TurnEnd : Type 0 where
  ended : (result_text : Option String) → (rest : List (Result Response)) → TurnEnd
  api_error : String → TurnEnd
  no_answer : TurnEnd

-- How the process ends.
pub data Exit : Type 0 where
  finished : Exit
  exit_code_1 : Exit
  waiting_for_api : Exit

-- The text of the first text block.
abbrev pub first_text : List Block → Option String
first_text [] = none
first_text (text_block s ∷ blocks) = some s
first_text (tool_use id name input ∷ blocks) = first_text blocks
first_text (other_block s ∷ blocks) = first_text blocks

abbrev pub error_output : String → Output
error_output message = record {
  status = "error";
  result = none;
  new_session_id = none;
  error = some message;
}

abbrev pub success_output : Option String → String → Output
success_output result session_id = record {
  status = "success";
  result = result;
  new_session_id = some session_id;
  error = none;
}

module _ {Disk : Type 0} where
  -- `write_error`
  abbrev pub write_error : String → Agent Disk → Exit × Agent Disk
  write_error message a =
      (exit_code_1, record a { outputs = a.outputs ++ error_output message ∷ [] })

  abbrev pub add_turn : Turn → Agent Disk → Agent Disk
  add_turn turn a = record a { turns = a.turns ++ turn ∷ [] }

module _ {Disk : Type 0} (world : ℕ → ToolWorld Disk) (cwd : String) (system : String)
    (session_id : ℕ → String) where
  -- The results of the blocks of a response that use a tool, in order, from the `n`-th call of a tool on.
  unfoldable pub run_tools : ℕ → List Block → Disk → List ToolResult × Disk
  run_tools n [] d = ([], d)
  run_tools n (text_block s ∷ blocks) d = run_tools n blocks d
  run_tools n (other_block s ∷ blocks) d = run_tools n blocks d
  run_tools n (tool_use id name input ∷ blocks) d =
      let (answer, d1) = execute_tool (world n) name input cwd d in
      let (results, d2) = run_tools (n + 1) blocks d1 in
      (record { tool_use_id = id; content = answer } ∷ results, d2)

  abbrev pub send : Agent Disk → Agent Disk
  send a = record a { requests = a.requests ++ record { system = system; turns = a.turns } ∷ [] }

  abbrev pub add_results : List Block → Agent Disk → Agent Disk
  add_results blocks a =
      let (results, d) = run_tools a.calls blocks a.disk in
      record a {
        disk = d;
        turns = a.turns ++ results_turn results ∷ [];
        calls = a.calls + length results;
      }

  -- The inner loop.
  unfoldable pub agent_loop : List (Result Response) → Agent Disk → TurnEnd × Agent Disk
  unfolding run_tools
  agent_loop [] a = (no_answer, send a)
  agent_loop (raised e ∷ rest) a = (api_error e, send a)
  agent_loop (ok response ∷ rest) a =
      let answered = add_turn (assistant_turn response.content) (send a) in
      let next = agent_loop rest (add_results response.content answered) in
      if response.stop_reason == "tool_use"
      then next
      else if response.stop_reason == "end_turn"
      then (ended (first_text response.content) rest, answered)
      else (ended none rest, answered)

  -- The session is saved, and the result and a heartbeat are printed.
  abbrev pub finish_turn : Option String → Agent Disk → Agent Disk
  finish_turn result_text a = record a {
    session = save_session a.turns;
    saves = a.saves + 1;
    outputs =
        a.outputs
        ++ success_output result_text (session_id a.saves)
          ∷ success_output none (session_id a.saves)
          ∷ [];
  }

  abbrev pub after_turn :
      (List (Result Response) → Agent Disk → Exit × Agent Disk)
      → TurnEnd × Agent Disk
      → Exit × Agent Disk
  after_turn next (ended result_text rest, a) = next rest (finish_turn result_text a)
  after_turn next (api_error e, a) = write_error ("Anthropic API error: " ⧺ e) a
  after_turn next (no_answer, a) = (waiting_for_api, a)

  -- The outer loop over the first prompt and those that the waits bring, until one brings none.
  unfoldable pub conversation :
      (prompts : List String) → List (Result Response) → Agent Disk → Exit × Agent Disk
  unfolding agent_loop save_session
  conversation [] responses a = (finished, a)
  conversation (prompt ∷ prompts) responses a =
      after_turn (conversation prompts) (agent_loop responses (add_turn (user_turn prompt) a))

abbrev pub scheduled_prefix : String
scheduled_prefix = "[SCHEDULED TASK - The following message was sent automatically]\n\n"

-- What the process starts with: stdin's JSON object, the API key, and why the client fails, if it does.
pub record Launch : Type 0 where
  pub input : Result (List (String × Json))
  pub api_key : String
  pub client_error : Option String

abbrev pub new_agent : {Disk : Type 0} → List Turn → SessionFile → Disk → Agent Disk
new_agent turns session d = record {
  disk = d;
  session = session;
  turns = turns;
  requests = [];
  outputs = [];
  saves = 0;
  calls = 0;
}

module _ {Disk : Type 0} (world : ℕ → ToolWorld Disk) (cwd : String) (session_id : ℕ → String) where
  abbrev pub first_prompt : List (String × Json) → String
  first_prompt fields =
      if flag_field "is_scheduled_task" fields
      then scheduled_prefix ⧺ text_field "prompt" "" fields
      else text_field "prompt" "" fields

  abbrev pub converse :
      List (String × Json)
      → (follow_ups : List String) → List (Result Response)
      → SessionFile
      → Disk
      → Exit × Agent Disk
  converse fields follow_ups responses session d =
      conversation world cwd
        (build_system_prompt cwd (text_field "group_folder" "default" fields)
          (flag_field "is_main" fields) (text_field "assistant_name" "Andy" fields))
        session_id (first_prompt fields ∷ follow_ups) responses
        (new_agent (load_session (optional_field "session_id" fields) session) session d)

  -- From the making of the client on.
  abbrev pub with_client :
      Option String
      → List (String × Json)
      → (follow_ups : List String) → List (Result Response)
      → SessionFile
      → Disk
      → Exit × Agent Disk
  with_client (some e) fields follow_ups responses session d =
      write_error ("Failed to initialize Anthropic client: " ⧺ e) (new_agent [] session d)
  with_client none fields follow_ups responses session d =
      converse fields follow_ups responses session d

  -- `main`, once stdin is read.
  abbrev pub run_main :
      Launch
      → Result (List (String × Json))
      → (follow_ups : List String) → List (Result Response)
      → SessionFile
      → Disk
      → Exit × Agent Disk
  run_main launch (raised e) follow_ups responses session d =
      write_error ("Failed to read/parse stdin: " ⧺ e) (new_agent [] session d)
  run_main launch (ok fields) follow_ups responses session d =
      if is_empty (text_field "prompt" "" fields)
      then write_error "No prompt provided" (new_agent [] session d)
      else if is_empty launch.api_key
      then write_error "ANTHROPIC_API_KEY not set" (new_agent [] session d)
      else with_client launch.client_error fields follow_ups responses session d

unfoldable pub main :
    {Disk : Type 0}
    → (ℕ → ToolWorld Disk)
    → (cwd : String) → (session_id : ℕ → String) → Launch
    → (follow_ups : List String) → List (Result Response)
    → SessionFile
    → Disk
    → Exit × Agent Disk
main world cwd session_id launch follow_ups responses session d =
    run_main world cwd session_id launch launch.input follow_ups responses session d
