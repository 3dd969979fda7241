-- ===== src/Subprocess/Blocks.antt =====
-- The blocks that the agent writes, as `_collect_output` of secnano/subprocess_runner.py reads them.
use secnano.Prelude.{
  String, ◌≡◌, refl, sym, ap, ◌∙◌, ◌⊎◌, inl, inr, Bool, true, false, ◌&&◌, Bool-cases, All, Option,
  none, some, List, [], ◌∷◌, ◌++◌, map, if◌then◌else◌,
}
use mathlib.Core.List.{append-nil}
use secnano.Types.{SubprocessOutput}
use secnano.Subprocess.{
  Read, silence, in_loop, Members, output_of, collect_output, fits, write_output,
}

-- The blocks of several outputs.
abbrev pub blocks : (Members → String) → (limit_error : String) → List Members → List Read
blocks dumps limit_error [] = []
blocks dumps limit_error (output ∷ outputs) =
    write_output dumps limit_error output ++ blocks dumps limit_error outputs

module _ (dumps : Members → String) (limit_error : String) where
  abbrev pub all_fit : List Members → Bool
  all_fit [] = true
  all_fit (output ∷ outputs) = fits dumps output && all_fit outputs

  -- The outputs before the first whose line is over the limit, and the error if there is one.
  unfoldable pub received : List Members → List SubprocessOutput × Option String
  unfolding output_of
  received [] = ([], none)
  received (output ∷ outputs) =
      let others = received outputs in
      if fits dumps output then (output_of output ∷ others.0, others.1) else ([], some limit_error)

  pub received-cases :
      (outputs : List Members)
      → (all_fit outputs ≡ true) × (received outputs ≡ (map output_of outputs, none))
        ⊎ (all_fit outputs ≡ false) × ((received outputs).1 ≡ some limit_error)
  unfolding received
  received-cases [] = inl (refl, refl)
  received-cases (output ∷ outputs) = elim (Bool-cases (fits dumps output)) [
    | inr e ↦ inr (rw e refl, rw e refl)
    | inl e ↦ elim (received-cases outputs) [
      | inl (fit, all) ↦ inl (rw e fit, rw (e, all) refl)
      | inr (not_fit, error) ↦ inr (rw e not_fit, rw e error)
    ]
  ]

module _ (dumps : Members → String) (limit_error : String) (loads : String → Option Members) where
  -- `json.loads` undoes `json.dumps` on an output.
  abbrev pub IsReadBack : Members → Type 0
  IsReadBack members = loads (dumps members) ≡ some members

  collect_output-blocks :
      (outputs : List Members) (rest : List Read)
      → All IsReadBack outputs
      → collect_output loads in_loop rest ≡ ([], none)
      → collect_output loads in_loop (blocks dumps limit_error outputs ++ rest)
        ≡ received dumps limit_error outputs
  unfolding collect_output write_output received
  collect_output-blocks [] rest back ends = ends
  collect_output-blocks (output ∷ outputs) rest back ends = elim (Bool-cases (fits dumps output)) [
    | inl e ↦ rw (e, back.0, collect_output-blocks outputs rest back.1 ends) refl
    | inr e ↦ rw e refl
  ]

  -- If `json.loads` undoes `json.dumps` on the outputs: of an agent that writes them and ends, the
  -- host collects exactly them, in order, if no line of them is over 64 KiB; otherwise it collects
  -- exactly those before the first such line, and raises the error of `readline`. The same holds if
  -- the agent stops for two seconds before it ends: whatever comes after the pause, further
  -- outputs too, is lost.
  pub collect_output-blocks_paused :
      (outputs : List Members) (later : List Read)
      → All IsReadBack outputs
      → (collect_output loads in_loop (blocks dumps limit_error outputs)
          ≡ received dumps limit_error outputs)
        × (collect_output loads in_loop (blocks dumps limit_error outputs ++ silence ∷ later)
            ≡ received dumps limit_error outputs)
  unfolding collect_output
  collect_output-blocks_paused outputs later back = (
    ap (collect_output loads in_loop) (sym (append-nil (blocks dumps limit_error outputs)))
        ∙ collect_output-blocks outputs [] back refl,
    collect_output-blocks outputs (silence ∷ later) back refl,
  )
