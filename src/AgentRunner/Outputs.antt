-- ===== src/AgentRunner/Outputs.antt =====
-- What agent_runner/main.py prints, over a whole run of the process.
use mathlib.Core.Path.{subst}
use mathlib.Core.List.{append_assoc, append-nil}
use secnano.Prelude.{
  ℕ, suc, ◌+◌, ◌<◌, String, ◌≡◌, refl, sym, ap, ◌∙◌, Option, none, some, List, [], ◌∷◌, ◌++◌,
  if◌then◌else◌, ◌==◌, if-cases, is_empty, ◌⧺◌, length, arith,
}
use secnano.Types.{Json}
use secnano.Effect.{Result, ok, raised}
use secnano.JsonValue.{text_field, optional_field}
use secnano.AgentTools.Dispatch.{ToolWorld}
use secnano.AgentRunner.Session.{user_turn, assistant_turn, SessionFile, load_session}
use secnano.AgentRunner.Loop.{
  Response, Output, Agent, TurnEnd, ended, api_error, no_answer, Exit, finished, exit_code_1,
  waiting_for_api, first_text, error_output, success_output, write_error, add_turn, send,
  add_results, agent_loop, finish_turn, after_turn, conversation, Launch, new_agent, first_prompt,
  with_client, run_main, main,
}

-- A result and a heartbeat for each turn, both with the session id that was saved for it.
abbrev pub turn_outputs : (ℕ → String) → ℕ → List (Option String) → List Output
turn_outputs session_id n [] = []
turn_outputs session_id n (result ∷ results) =
    success_output result (session_id n)
    ∷ success_output none (session_id n)
    ∷ turn_outputs session_id (n + 1) results

abbrev pub error_outputs : Option String → List Output
error_outputs none = []
error_outputs (some message) = error_output message ∷ []

-- How many of the prompts have a result, and whether there is an error, by the end of the process.
abbrev pub ExitFits : Exit → (prompts results : ℕ) → Option String → Type 0
ExitFits finished prompts results error = (results ≡ prompts) × (error ≡ none)
ExitFits exit_code_1 prompts results error =
    (results < prompts) × ((message : String) × (error ≡ some message))
ExitFits waiting_for_api prompts results error = (results < prompts) × (error ≡ none)

pub record Prints (session_id : ℕ → String) (exit : Exit) (prompts first : ℕ)
    (outputs : List Output) : Type 0 where
  pub results : List (Option String)
  pub error : Option String
  pub printed : outputs ≡ turn_outputs session_id first results ++ error_outputs error
  pub fits : ExitFits exit prompts (length results) error

ExitFits-suc :
    (exit : Exit) (prompts results : ℕ) (error : Option String)
    → ExitFits exit prompts results error
    → ExitFits exit (suc prompts) (suc results) error
ExitFits-suc finished prompts results error (same, none_) = (ap suc same, none_)
ExitFits-suc exit_code_1 prompts results error (less, some_) = (omega arith, some_)
ExitFits-suc waiting_for_api prompts results error (less, none_) = (omega arith, none_)

module _ {Disk : Type 0} (world : ℕ → ToolWorld Disk) (cwd : String) (system : String)
    (session_id : ℕ → String) where
  -- The inner loop prints and saves nothing.
  abbrev SameOutputs : Agent Disk → Agent Disk → Type 0
  SameOutputs a b = (b.outputs ≡ a.outputs) × (b.saves ≡ a.saves)

  agent_loop-SameOutputs :
      (responses : List (Result Response)) (a : Agent Disk)
      → SameOutputs a (agent_loop world cwd system session_id responses a).1
  unfolding agent_loop
  agent_loop-SameOutputs [] a = (refl, refl)
  agent_loop-SameOutputs (raised e ∷ rest) a = (refl, refl)
  agent_loop-SameOutputs (ok response ∷ rest) a =
      let blocks = response.content in
      let answered = add_turn (assistant_turn blocks) (send world cwd system session_id a) in
      let same : TurnEnd × Agent Disk → Type 0 = λ r. SameOutputs a r.1 in
      if-cases same (response.stop_reason == "tool_use")
        (agent_loop world cwd system session_id rest
          (add_results world cwd system session_id blocks answered))
        (if response.stop_reason == "end_turn"
          then (ended (first_text blocks) rest, answered)
          else (ended none rest, answered))
        (agent_loop-SameOutputs rest (add_results world cwd system session_id blocks answered))
        (if-cases same (response.stop_reason == "end_turn")
          (ended (first_text blocks) rest, answered) (ended none rest, answered) (refl, refl)
          (refl, refl))

  -- What is printed behind the outputs of `a`.
  abbrev PrintsFrom : ℕ → Agent Disk → Exit × Agent Disk → Type 0
  PrintsFrom prompts a (exit, b) =
      (more : List Output) × (b.outputs ≡ a.outputs ++ more)
      × Prints session_id exit prompts a.saves more

  conversation-Prints :
      (prompts : List String) (responses : List (Result Response)) (a : Agent Disk)
      → PrintsFrom (length prompts) a (conversation world cwd system session_id prompts responses a)
  unfolding conversation
  conversation-Prints [] responses a = (
    [],
    sym (append-nil a.outputs),
    record { results = []; error = none; printed = refl; fits = (refl, refl) },
  )
  conversation-Prints (prompt ∷ prompts) responses a =
      go (agent_loop world cwd system session_id responses (add_turn (user_turn prompt) a))
        (agent_loop-SameOutputs responses (add_turn (user_turn prompt) a))
        (λ rest b. conversation-Prints prompts rest b)
    where
      go :
          (r : TurnEnd × Agent Disk)
          → SameOutputs a r.1
          → ((rest : List (Result Response)) (b : Agent Disk)
              → PrintsFrom
                  (length prompts)
                  b
                  (conversation world cwd system session_id prompts rest b))
          → PrintsFrom (suc (length prompts)) a (
              after_turn world cwd system session_id
                (conversation world cwd system session_id prompts)
                r)
      go (ended result_text rest, b) same next =
          let (more, split, prints) =
            next rest (finish_turn world cwd system session_id result_text b) in
          let pair =
            success_output result_text (session_id b.saves)
            ∷ success_output none (session_id b.saves)
            ∷ [] in
          rw (sym same.0, sym same.1)
            (
              pair ++ more,
              split ∙ append_assoc b.outputs pair more,
              record {
                results = result_text ∷ prints.results;
                error = prints.error;
                printed = ap (λ l. pair ++ l) prints.printed;
                fits =
                    ExitFits-suc _ (length prompts) (length prints.results) prints.error
                      prints.fits;
              },
            )
      go (api_error e, b) same next = (
        error_outputs (some ("Anthropic API error: " ⧺ e)),
        ap (λ l. l ++ error_outputs (some ("Anthropic API error: " ⧺ e))) same.0,
        record {
          results = [];
          error = some ("Anthropic API error: " ⧺ e);
          printed = refl;
          fits = (omega arith, (_, refl));
        },
      )
      go (no_answer, b) same next = (
        [],
        same.0 ∙ sym (append-nil a.outputs),
        record { results = []; error = none; printed = refl; fits = (omega arith, refl) },
      )

module _ {Disk : Type 0} (world : ℕ → ToolWorld Disk) (cwd : String) (session_id : ℕ → String) where
  abbrev PrintsAll : ℕ → Exit × Agent Disk → Type 0
  PrintsAll prompts (exit, a) = Prints session_id exit prompts 0 a.outputs

  error-PrintsAll :
      (message : String) (prompts : ℕ) (session : SessionFile) (d : Disk)
      → PrintsAll (suc prompts) (write_error message (new_agent [] session d))
  error-PrintsAll message prompts session d = record {
    results = [];
    error = some message;
    printed = refl;
    fits = (omega arith, (message, refl));
  }

  with_client-PrintsAll :
      (client_error : Option String) (fields : List (String × Json)) (follow_ups : List String)
      (responses : List (Result Response)) (session : SessionFile) (d : Disk)
      → PrintsAll
          (suc (length follow_ups))
          (with_client world cwd session_id client_error fields follow_ups responses session d)
  with_client-PrintsAll (some e) fields follow_ups responses session d =
      error-PrintsAll ("Failed to initialize Anthropic client: " ⧺ e) (length follow_ups) session d
  with_client-PrintsAll none fields follow_ups responses session d =
      let a = new_agent (load_session (optional_field "session_id" fields) session) session d in
      let (more, split, prints) =
        conversation-Prints world cwd _ session_id
          (first_prompt world cwd session_id fields ∷ follow_ups) responses a in
      subst (Prints session_id _ (suc (length follow_ups)) 0) (sym split) prints

  -- Whatever the API answers and the waits bring, the process prints for each prompt that was answered,
  -- in order, the result and a heartbeat with no result, both with the session id that was saved for
  -- it. It ends well only if every prompt was answered, and then prints nothing else; with
  -- exit code 1 it has printed one error behind, and some prompt was not answered.
  pub main-Prints :
      (launch : Launch) (follow_ups : List String) (responses : List (Result Response))
      (session : SessionFile) (d : Disk)
      → Prints session_id
          (main world cwd session_id launch follow_ups responses session d).0
          (suc (length follow_ups))
          0
          (main world cwd session_id launch follow_ups responses session d).1.outputs
  unfolding main
  main-Prints launch follow_ups responses session d = go launch.input
    where
      go :
          (input : Result (List (String × Json)))
          → PrintsAll
              (suc (length follow_ups))
              (run_main world cwd session_id launch input follow_ups responses session d)
      go (raised e) =
          error-PrintsAll ("Failed to read/parse stdin: " ⧺ e) (length follow_ups) session d
      go (ok fields) =
          let prompts = suc (length follow_ups) in
          let no_prompt = write_error "No prompt provided" (new_agent [] session d) in
          let no_key = write_error "ANTHROPIC_API_KEY not set" (new_agent [] session d) in
          let run =
            with_client world cwd session_id launch.client_error fields follow_ups responses session
              d in
          if-cases (PrintsAll prompts) (is_empty (text_field "prompt" "" fields)) no_prompt
            (if is_empty launch.api_key then no_key else run)
            (error-PrintsAll "No prompt provided" (length follow_ups) session d)
            (if-cases (PrintsAll prompts) (is_empty launch.api_key) no_key run
              (error-PrintsAll "ANTHROPIC_API_KEY not set" (length follow_ups) session d)
              (with_client-PrintsAll launch.client_error fields follow_ups responses session d))
