-- ===== src/Tests/Outputs.antt =====
-- What an agent process writes, and what its run ends with.
use secnano.Prelude.{String, ◌≡◌, refl, ◌⊎◌, false, Option, none, some, [], ◌∷◌, ◌++◌, All}
use secnano.Types.{SubprocessOutput}
use secnano.Subprocess.{
  Members, silence, line, in_loop, collect_output, output_of, final_output, is_meaningful,
}
use secnano.Subprocess.Blocks.{blocks, received, collect_output-blocks_paused}
use secnano.Subprocess.Final.{IsLastMeaningful, IsFallback, final_output-cases}

abbrev result_output : String → SubprocessOutput
result_output result = record {
  status = "success";
  result = some result;
  new_session_id = none;
  error = none;
}

abbrev heartbeat : SubprocessOutput
heartbeat = record { status = "success"; result = none; new_session_id = some "s1"; error = none }

final_output-cases_example :
    IsLastMeaningful
      (result_output "done" ∷ heartbeat ∷ [])
      (final_output "" (result_output "done" ∷ heartbeat ∷ []))
    ⊎ All (λ output. is_meaningful output ≡ false) (result_output "done" ∷ heartbeat ∷ [])
      × IsFallback
          (result_output "done" ∷ heartbeat ∷ [])
          (final_output "" (result_output "done" ∷ heartbeat ∷ []))
final_output-cases_example = final_output-cases "" (result_output "done" ∷ heartbeat ∷ [])

abbrev written : String → Members
written result = ("result", some result) ∷ []

-- A format for these outputs.
abbrev dump_result : Members → String
dump_result ((key, some value) ∷ []) = value
dump_result _ = ""

abbrev load_result : String → Option Members
load_result result = some (written result)

collect_output-blocks_paused_example :
    (collect_output load_result in_loop
        (blocks dump_result "too long" (written "a" ∷ written "b" ∷ []))
      ≡ (output_of (written "a") ∷ output_of (written "b") ∷ [], none))
    × (collect_output load_result in_loop (
          blocks dump_result "too long" (written "a" ∷ written "b" ∷ [])
          ++ silence ∷ line "lost" ∷ [])
        ≡ (output_of (written "a") ∷ output_of (written "b") ∷ [], none))
unfolding received
collect_output-blocks_paused_example =
    collect_output-blocks_paused dump_result "too long" load_result (written "a" ∷ written "b" ∷ [])
      (line "lost" ∷ []) (refl, (refl, tt))
