-- ===== src/AgentRunner/Requests.antt =====
-- What agent_runner/main.py sends to the API and saves, over a whole run of the process.
use mathlib.Core.List.{append_assoc}
use secnano.Prelude.{
  ℕ, ◌+◌, String, ◌≡◌, refl, ap, ◌∙◌, Option, none, some, List, [], ◌∷◌, ◌++◌, map, if◌then◌else◌,
  ◌==◌, if-cases, is_empty, ◌⧺◌,
}
use secnano.Types.{Json}
use secnano.Effect.{Result, ok, raised}
use secnano.JsonValue.{text_field, optional_field}
use secnano.AgentTools.Dispatch.{ToolWorld, execute_tool}
use secnano.AgentRunner.Session.{
  Block, text_block, tool_use, other_block, ToolResult, Turn, user_turn, results_turn,
  assistant_turn, SessionFile, load_session,
}
use secnano.AgentRunner.Loop.{
  Response, Request, Agent, TurnEnd, ended, api_error, no_answer, Exit, Launch, run_tools,
  agent_loop, conversation, main, run_main, converse, with_client, add_turn, add_results, send,
  after_turn, finish_turn, first_text, new_agent, write_error,
}
use secnano.AgentRunner.Alternation.{
  tool_use_ids, IsTalk, IsRequest, IsSession, IsTalk-snoc, last_answer-snoc, save_session-IsSession,
  load_session-IsTalk,
}

abbrev pub AllAsked : List Request → Type 0
AllAsked [] = Unit
AllAsked (r ∷ rs) = IsRequest r.turns × AllAsked rs

AllAsked-snoc :
    (rs : List Request) (r : Request) → AllAsked rs → IsRequest r.turns → AllAsked (rs ++ r ∷ [])
AllAsked-snoc [] r h last = (last, tt)
AllAsked-snoc (x ∷ rs) r h last = (h.0, AllAsked-snoc rs r h.1 last)

-- All requests so far, and the session file.
pub record IsLogged {Disk : Type 0} (a : Agent Disk) : Type 0 where
  pub asked : AllAsked a.requests
  pub saved : IsSession a.session

module _ {Disk : Type 0} (world : ℕ → ToolWorld Disk) (cwd : String) (system : String)
    (session_id : ℕ → String) where
  run_tools-ids :
      (n : ℕ) (blocks : List Block) (d : Disk)
      → map (λ (r : ToolResult). r.tool_use_id) (run_tools world cwd system session_id n blocks d).0
        ≡ tool_use_ids blocks
  unfolding run_tools
  run_tools-ids n [] d = refl
  run_tools-ids n (text_block s ∷ blocks) d = run_tools-ids n blocks d
  run_tools-ids n (other_block s ∷ blocks) d = run_tools-ids n blocks d
  run_tools-ids n (tool_use id name input ∷ blocks) d =
      ap (λ (ids : List String). id ∷ ids)
        (run_tools-ids (n + 1) blocks (execute_tool (world n) name input cwd d).1)

  -- The conversation goes on from an answer, or waits for one.
  abbrev Between : Agent Disk → Type 0
  Between a = IsTalk none a.turns × IsLogged a

  abbrev Asking : Agent Disk → Type 0
  Asking a = IsRequest a.turns × IsLogged a

  abbrev AfterLoop : TurnEnd × Agent Disk → Type 0
  AfterLoop (ended result_text rest, a) = Between a
  AfterLoop (api_error e, a) = IsLogged a
  AfterLoop (no_answer, a) = IsLogged a

  send-IsLogged : (a : Agent Disk) → Asking a → IsLogged (send world cwd system session_id a)
  send-IsLogged a h = record { asked = AllAsked-snoc a.requests _ h.1.asked h.0; saved = h.1.saved }

  -- The turns with an answer to a request.
  answered-split :
      (turns : List Turn) (h : IsRequest turns) (blocks : List Block)
      → turns ++ assistant_turn blocks ∷ [] ≡ h.talk ++ h.ask ∷ assistant_turn blocks ∷ []
  answered-split turns h blocks =
      ap (λ (l : List Turn). l ++ assistant_turn blocks ∷ []) h.split
      ∙ append_assoc h.talk (h.ask ∷ []) (assistant_turn blocks ∷ [])

  answered-IsTalk :
      (turns : List Turn) (blocks : List Block)
      → IsRequest turns
      → IsTalk none (turns ++ assistant_turn blocks ∷ [])
  answered-IsTalk turns blocks h =
      rw (answered-split turns h blocks) (IsTalk-snoc none h.talk h.ask blocks h.talks h.fits)

  results-IsRequest :
      (turns : List Turn) (blocks : List Block) (results : List ToolResult)
      → IsRequest turns
      → map (λ (r : ToolResult). r.tool_use_id) results ≡ tool_use_ids blocks
      → IsRequest ((turns ++ assistant_turn blocks ∷ []) ++ results_turn results ∷ [])
  results-IsRequest turns blocks results h ids = record {
    talk = turns ++ assistant_turn blocks ∷ [];
    ask = results_turn results;
    split = refl;
    talks = answered-IsTalk turns blocks h;
    fits =
        rw (answered-split turns h blocks, last_answer-snoc none h.talk h.ask blocks h.talks) ids;
  }

  agent_loop-AfterLoop :
      (responses : List (Result Response)) (a : Agent Disk)
      → Asking a
      → AfterLoop (agent_loop world cwd system session_id responses a)
  unfolding agent_loop
  agent_loop-AfterLoop [] a h = send-IsLogged a h
  agent_loop-AfterLoop (raised e ∷ rest) a h = send-IsLogged a h
  agent_loop-AfterLoop (ok response ∷ rest) a h =
      let blocks = response.content in
      let logged = send-IsLogged a h in
      let answered = add_turn (assistant_turn blocks) (send world cwd system session_id a) in
      let between : Between answered = (
        answered-IsTalk a.turns blocks h.0,
        record { asked = logged.asked; saved = logged.saved },
      ) in
      if-cases AfterLoop (response.stop_reason == "tool_use")
        (agent_loop world cwd system session_id rest
          (add_results world cwd system session_id blocks answered))
        (if response.stop_reason == "end_turn"
          then (ended (first_text blocks) rest, answered)
          else (ended none rest, answered))
        (agent_loop-AfterLoop rest (add_results world cwd system session_id blocks answered) (
          results-IsRequest a.turns blocks _ h.0 (run_tools-ids a.calls blocks a.disk),
          record { asked = logged.asked; saved = logged.saved },
        ))
        (if-cases AfterLoop (response.stop_reason == "end_turn")
          (ended (first_text blocks) rest, answered) (ended none rest, answered) between between)

  finish_turn-Between :
      (result_text : Option String) (a : Agent Disk)
      → Between a
      → Between (finish_turn world cwd system session_id result_text a)
  finish_turn-Between result_text a h =
      (h.0, record { asked = h.1.asked; saved = save_session-IsSession a.turns h.0 })

  conversation-IsLogged :
      (prompts : List String) (responses : List (Result Response)) (a : Agent Disk)
      → Between a
      → IsLogged (conversation world cwd system session_id prompts responses a).1
  unfolding conversation
  conversation-IsLogged [] responses a h = h.1
  conversation-IsLogged (prompt ∷ prompts) responses a h =
      go (agent_loop world cwd system session_id responses (add_turn (user_turn prompt) a))
        (agent_loop-AfterLoop responses (add_turn (user_turn prompt) a) (
          record { talk = a.turns; ask = user_turn prompt; split = refl; talks = h.0; fits = tt },
          record { asked = h.1.asked; saved = h.1.saved },
        ))
        (λ rest b between. conversation-IsLogged prompts rest b between)
    where
      go :
          (r : TurnEnd × Agent Disk)
          → AfterLoop r
          → ((rest : List (Result Response)) (b : Agent Disk)
              → Between b
              → IsLogged (conversation world cwd system session_id prompts rest b).1)
          → IsLogged
              (after_turn world cwd system session_id
                (conversation world cwd system session_id prompts)
                r).1
      go (ended result_text rest, b) between next =
          next rest (finish_turn world cwd system session_id result_text b)
            (finish_turn-Between result_text b between)
      go (api_error e, b) logged next = record { asked = logged.asked; saved = logged.saved }
      go (no_answer, b) logged next = logged

module _ {Disk : Type 0} (world : ℕ → ToolWorld Disk) (cwd : String) (session_id : ℕ → String) where
  error-IsLogged :
      (message : String) (session : SessionFile) (d : Disk)
      → IsSession session
      → IsLogged (write_error message (new_agent [] session d)).1
  error-IsLogged message session d h = record { asked = tt; saved = h }

  converse-IsLogged :
      (fields : List (String × Json)) (follow_ups : List String)
      (responses : List (Result Response)) (session : SessionFile) (d : Disk)
      → IsSession session
      → IsLogged (converse world cwd session_id fields follow_ups responses session d).1
  converse-IsLogged fields follow_ups responses session d h =
      conversation-IsLogged world cwd _ session_id _ responses
        (new_agent (load_session (optional_field "session_id" fields) session) session d)
        (
          load_session-IsTalk (optional_field "session_id" fields) session h,
          record { asked = tt; saved = h },
        )

  with_client-IsLogged :
      (client_error : Option String) (fields : List (String × Json)) (follow_ups : List String)
      (responses : List (Result Response)) (session : SessionFile) (d : Disk)
      → IsSession session
      → IsLogged
          (with_client world cwd session_id client_error fields follow_ups responses session d).1
  with_client-IsLogged (some e) fields follow_ups responses session d h =
      error-IsLogged ("Failed to initialize Anthropic client: " ⧺ e) session d h
  with_client-IsLogged none fields follow_ups responses session d h =
      converse-IsLogged fields follow_ups responses session d h

  -- Whatever the API and the waits bring, if the session file had these properties or could not be read:
  -- in every request, turns of the user and of the assistant alternate, from the user's to the user's,
  -- and results of tools behind an answer have the ids of its tool uses, each once and in order; and
  -- the session file afterwards cannot be read, or has alternating turns up to an answer, with the
  -- results in the same order, and at most 50 of them.
  pub main-IsLogged :
      (launch : Launch) (follow_ups : List String) (responses : List (Result Response))
      (session : SessionFile) (d : Disk)
      → IsSession session
      → IsLogged (main world cwd session_id launch follow_ups responses session d).1
  unfolding main
  main-IsLogged launch follow_ups responses session d h = go launch.input
    where
      go :
          (input : Result (List (String × Json)))
          → IsLogged (run_main world cwd session_id launch input follow_ups responses session d).1
      go (raised e) = error-IsLogged ("Failed to read/parse stdin: " ⧺ e) session d h
      go (ok fields) =
          let no_prompt = write_error "No prompt provided" (new_agent [] session d) in
          let no_key = write_error "ANTHROPIC_API_KEY not set" (new_agent [] session d) in
          let run =
            with_client world cwd session_id launch.client_error fields follow_ups responses session
              d in
          if-cases (λ (r : Exit × Agent Disk). IsLogged r.1)
            (is_empty (text_field "prompt" "" fields)) no_prompt
            (if is_empty launch.api_key then no_key else run)
            (error-IsLogged "No prompt provided" session d h)
            (if-cases (λ (r : Exit × Agent Disk). IsLogged r.1) (is_empty launch.api_key) no_key run
              (error-IsLogged "ANTHROPIC_API_KEY not set" session d h)
              (with_client-IsLogged launch.client_error fields follow_ups responses session d h))
