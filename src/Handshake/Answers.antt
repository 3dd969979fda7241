-- ===== src/Handshake/Answers.antt =====
-- What the host makes of the outputs of a run of the agent's process.
use mathlib.Core.Path.{subst}
use mathlib.Core.List.{append-nil, map-append}
use secnano.Prelude.{
  ℕ, suc, ◌+◌, String, ◌≡◌, refl, sym, ap, ◌∙◌, ◌⊎◌, inl, inr, Bool, true, false, Option, none,
  some, List, [], ◌∷◌, ◌++◌, map, All, length,
}
use secnano.Types.{SubprocessOutput, RegisteredGroup, SubprocessInput, AgentOutput}
use secnano.Effect.{Result}
use secnano.Subprocess.{
  Members, output_of, is_meaningful, last_meaningful, last_output, or_last, final_output, Course,
  run_result, raised_or, collect_output,
}
use secnano.Subprocess as Host
use secnano.Subprocess.Blocks.{
  blocks, IsReadBack, all_fit, received, received-cases, collect_output-blocks_paused,
}
use secnano.AgentTools.Dispatch.{ToolWorld}
use secnano.AgentRunner.Session.{SessionFile}
use secnano.AgentRunner.Loop.{Output, success_output, error_output, Exit, Launch, Response, main}
use secnano.AgentRunner.Outputs.{turn_outputs, error_outputs, Prints, main-Prints}

-- The object that `write_output` prints: an error has no session id, and a result no error.
abbrev pub members_of : Output → Members
members_of output = elim output.error [
  | none ↦
      ("status", some output.status)
      ∷ ("result", output.result)
      ∷ ("new_session_id", output.new_session_id)
      ∷ []
  | some message ↦
      ("status", some output.status) ∷ ("result", output.result) ∷ ("error", some message) ∷ []
]

abbrev seen : List Output → List SubprocessOutput
seen outputs = map output_of (map members_of outputs)

-- The last result that is a text.
abbrev pub last_text : List (Option String) → Option String
last_text [] = none
last_text (result ∷ results) =
    let later = last_text results in elim later [ none ↦ result | some s ↦ some s ]

last_meaningful-snoc :
    (outputs : List SubprocessOutput) (output : SubprocessOutput)
    → is_meaningful output ≡ true
    → last_meaningful (outputs ++ output ∷ []) ≡ some output
unfolding last_meaningful
last_meaningful-snoc [] output h = rw h refl
last_meaningful-snoc (first ∷ outputs) output h = rw (last_meaningful-snoc outputs output h) refl

abbrev IsSuccess : SubprocessOutput → Option String → Type 0
IsSuccess output result =
    (output.status ≡ "success") × (output.error ≡ none) × (output.result ≡ result)

module _ (session_id : ℕ → String) where
  -- The last text among the results, if there is one.
  abbrev Found : List (Option String) → Option SubprocessOutput → Type 0
  Found results o =
      (o ≡ none) × (last_text results ≡ none)
      ⊎ ((s : String) × (output : SubprocessOutput) × (o ≡ some output)
          × (last_text results ≡ some s)
          × IsSuccess output (some s))

  last_meaningful-Found :
      (n : ℕ) (results : List (Option String))
      → Found results (last_meaningful (seen (turn_outputs session_id n results)))
  unfolding last_meaningful output_of
  last_meaningful-Found n [] = inl (refl, refl)
  last_meaningful-Found n (none ∷ results) = elim (last_meaningful-Found (n + 1) results) [
    | inl (e, no_text) ↦ inl (rw e refl, rw no_text refl)
    | inr (s, output, e, text, success) ↦ inr (s, output, rw e refl, rw text refl, success)
  ]
  last_meaningful-Found n (some t ∷ results) = elim (last_meaningful-Found (n + 1) results) [
    | inl (e, no_text) ↦ inr (
      t,
      output_of (members_of (success_output (some t) (session_id n))),
      rw e refl,
      rw no_text refl,
      (refl, refl, refl),
    )
    | inr (s, output, e, text, success) ↦ inr (s, output, rw e refl, rw text refl, success)
  ]

  last_output-IsSuccess :
      (n : ℕ) (results : List (Option String)) (output : SubprocessOutput)
      → IsSuccess output none
      → IsSuccess (last_output output (seen (turn_outputs session_id n results))) none
  unfolding last_output output_of
  last_output-IsSuccess n [] output h = h
  last_output-IsSuccess n (result ∷ results) output h =
      last_output-IsSuccess (n + 1) results _ (refl, refl, refl)

  turn_outputs-first :
      (n : ℕ) (result : Option String) (results : List (Option String)) (stderr : String)
      → IsSuccess (or_last none stderr (seen (turn_outputs session_id n (result ∷ results)))) none
  unfolding last_output output_of
  turn_outputs-first n result results stderr =
      last_output-IsSuccess (n + 1) results _ (refl, refl, refl)

  -- What the host's run ends with: the error, if the process printed one; without an error
  -- the last result that is a text, and a success without one where no result is; and an
  -- error of its own where nothing was printed.
  abbrev pub Sees : Option String → List (Option String) → SubprocessOutput → Type 0
  Sees (some message) results r =
      (r.status ≡ "error") × (r.error ≡ some message) × (r.result ≡ none)
  Sees none [] r = (r.status ≡ "error") × (r.result ≡ none)
  Sees none (result ∷ results) r = IsSuccess r (last_text (result ∷ results))

  answered-IsSuccess :
      (n : ℕ) (result : Option String) (results : List (Option String)) (stderr : String)
      (o : Option SubprocessOutput)
      → Found (result ∷ results) o
      → IsSuccess
          (or_last o stderr (seen (turn_outputs session_id n (result ∷ results))))
          (last_text (result ∷ results))
  answered-IsSuccess n result results stderr o (inl (e, no_text)) =
      subst (IsSuccess (or_last o stderr (seen (turn_outputs session_id n (result ∷ results)))))
        (sym no_text) (rw e (turn_outputs-first n result results stderr))
  answered-IsSuccess n result results stderr o (inr (s, output, e, text, success)) =
      subst (IsSuccess (or_last o stderr (seen (turn_outputs session_id n (result ∷ results)))))
        (sym text) (rw e success)

  erred :
      (n : ℕ) (results : List (Option String)) (message : String)
      → last_meaningful (seen (turn_outputs session_id n results ++ error_output message ∷ []))
        ≡ some (output_of (members_of (error_output message)))
  unfolding output_of
  erred n results message =
      ap (λ (l : List Members). last_meaningful (map output_of l))
        (map-append members_of (turn_outputs session_id n results) (error_output message ∷ []))
      ∙ ap last_meaningful (
          map-append output_of (map members_of (turn_outputs session_id n results))
            (members_of (error_output message) ∷ []))
      ∙ last_meaningful-snoc (seen (turn_outputs session_id n results))
          (output_of (members_of (error_output message))) refl

  final_output-Sees :
      (stderr : String) (n : ℕ) (results : List (Option String)) (error : Option String)
      → Sees error results
          (final_output stderr (seen (turn_outputs session_id n results ++ error_outputs error)))
  unfolding final_output output_of
  final_output-Sees stderr n [] none = (refl, refl)
  final_output-Sees stderr n (result ∷ results) none =
      let outputs = turn_outputs session_id n (result ∷ results) in
      subst
        (λ (l : List Output).
          IsSuccess (final_output stderr (seen l)) (last_text (result ∷ results)))
        (sym (append-nil outputs))
        (answered-IsSuccess n result results stderr (last_meaningful (seen outputs))
          (last_meaningful-Found n (result ∷ results)))
  final_output-Sees stderr n results (some message) =
      rw (erred n results message) (refl, refl, refl)

-- The host's result of the run of a process with this end and these outputs. `fit` says whether
-- each output is printed as a line within the limit, and `limit_error` is the error at one that is not.
pub record Relays (session_id : ℕ → String) (exit : Exit) (prompts : ℕ) (outputs : List Output)
    (fit : Bool) (limit_error : String) (r : SubprocessOutput) : Type 0 where
  pub prints : Prints session_id exit prompts 0 outputs
  pub sees :
      (fit ≡ true) × Sees session_id prints.error prints.results r
      ⊎ (fit ≡ false) × (r ≡ Host.error_output limit_error)

module _ (dumps : Members → String) (limit_error : String) (stderr : String)
    (session_id : ℕ → String) where
  received-Sees :
      (results : List (Option String)) (error : Option String) (outputs : List Members)
      → map output_of outputs ≡ seen (turn_outputs session_id 0 results ++ error_outputs error)
      → (all_fit dumps limit_error outputs ≡ true)
          × Sees session_id error results (
              raised_or
                (received dumps limit_error outputs).1
                (final_output stderr (received dumps limit_error outputs).0))
        ⊎ (all_fit dumps limit_error outputs ≡ false)
          × (raised_or
                (received dumps limit_error outputs).1
                (final_output stderr (received dumps limit_error outputs).0)
              ≡ Host.error_output limit_error)
  received-Sees results error outputs same = elim (received-cases dumps limit_error outputs) [
    | inl (fit, all) ↦ inl (
      fit,
      subst
          (λ (c : List SubprocessOutput × Option String).
            Sees session_id error results (raised_or c.1 (final_output stderr c.0)))
          (sym all)
          (subst
            (λ (l : List SubprocessOutput). Sees session_id error results (final_output stderr l))
            (sym same) (final_output-Sees session_id stderr 0 results error)),
    )
    | inr (not_fit, raised_error) ↦ inr (not_fit, rw raised_error refl)
  ]

-- If `json.loads` undoes `json.dumps` on what the process prints, and the host reads it to its end without a
-- pause: where a line of it is over 64 KiB, the host's run ends with the error of `readline`. Otherwise,
-- if the process ends with exit code 1, the host's run ends with the error that it printed; if the process
-- ends well it answered every prompt, and the host's run ends with a success that has the last of
-- the results that is a text, if there is one.
pub main-Relays :
    {Disk : Type 0} (world : ℕ → ToolWorld Disk) (cwd : String) (session_id : ℕ → String)
    (launch : Launch) (follow_ups : List String) (responses : List (Result Response))
    (session : SessionFile) (d : Disk) (dumps : Members → String) (limit_error : String)
    (loads : String → Option Members) (default : ℕ) (group : RegisteredGroup)
    (sends : AgentOutput → Bool) (agent : SubprocessInput → Course) (stderr : String)
    → All
        (IsReadBack dumps limit_error loads)
        (map members_of (main world cwd session_id launch follow_ups responses session d).1.outputs)
    → Relays session_id
        (main world cwd session_id launch follow_ups responses session d).0
        (suc (length follow_ups))
        (main world cwd session_id launch follow_ups responses session d).1.outputs
        (all_fit dumps limit_error (
          map members_of
            (main world cwd session_id launch follow_ups responses session d).1.outputs))
        limit_error
        (run_result loads default group sends agent (
          Host.finished
            (blocks dumps limit_error (
              map members_of
                (main world cwd session_id launch follow_ups responses session d).1.outputs))
            stderr))
unfolding run_result
main-Relays world cwd session_id launch follow_ups responses session d dumps limit_error loads
      default group sends agent stderr back =
    let prints = main-Prints world cwd session_id launch follow_ups responses session d in
    let outputs =
      map members_of (main world cwd session_id launch follow_ups responses session d).1.outputs in
    record {
      prints = prints;
      sees = rw ((collect_output-blocks_paused dumps limit_error loads outputs [] back).0) (
          received-Sees dumps limit_error stderr session_id prints.results prints.error outputs
            (ap seen prints.printed));
    }
