-- ===== src/Subprocess/Final.antt =====
-- Which output a run of the agent ends with.
use mathlib.Core.Path.{subst}
use secnano.Prelude.{
  String, ◌≡◌, refl, sym, ap, ◌⊎◌, inl, inr, true, false, none, some, List, [], ◌∷◌, ◌++◌, All,
  Bool-cases,
}
use secnano.Types.{SubprocessOutput}
use secnano.Subprocess.{is_meaningful, last_meaningful, last_output, or_last, final_output}

-- An output with a result or an error, behind which there is none.
pub record IsLastMeaningful (outputs : List SubprocessOutput) (found : SubprocessOutput)
    : Type 0 where
  pub before : List SubprocessOutput
  pub after : List SubprocessOutput
  pub split : outputs ≡ before ++ found ∷ after
  pub meaningful : is_meaningful found ≡ true
  pub last : All (λ output. is_meaningful output ≡ false) after

last_meaningful-cases :
    (outputs : List SubprocessOutput)
    → (last_meaningful outputs ≡ none) × All (λ output. is_meaningful output ≡ false) outputs
      ⊎ ((found : SubprocessOutput) × (last_meaningful outputs ≡ some found)
          × IsLastMeaningful outputs found)
unfolding last_meaningful
last_meaningful-cases [] = inl (refl, tt)
last_meaningful-cases (output ∷ outputs) = elim (last_meaningful-cases outputs) [
  | inr (found, e, h) ↦ inr (
    found,
    rw e refl,
    record {
      before = output ∷ h.before;
      after = h.after;
      split = ap (λ l. output ∷ l) h.split;
      meaningful = h.meaningful;
      last = h.last;
    },
  )
  | inl (e, none_later) ↦ elim (Bool-cases (is_meaningful output)) [
    | inl m ↦ inr (
      output,
      rw (e, m) refl,
      record { before = []; after = outputs; split = refl; meaningful = m; last = none_later },
    )
    | inr m ↦ inl (rw (e, m) refl, (m, none_later))
  ]
]

last_output-split :
    (output : SubprocessOutput) (outputs : List SubprocessOutput)
    → (before : List SubprocessOutput) × (output ∷ outputs
        ≡ before ++ last_output output outputs ∷ [])
unfolding last_output
last_output-split output [] = ([], refl)
last_output-split output (next ∷ outputs) =
    let (before, e) = last_output-split next outputs in (output ∷ before, ap (λ l. output ∷ l) e)

-- Without a result or an error, the output is the last one.
abbrev pub IsFallback : List SubprocessOutput → SubprocessOutput → Type 0
IsFallback outputs final =
    (outputs ≡ []) × (final.status ≡ "error")
    ⊎ ((before : List SubprocessOutput) × (outputs ≡ before ++ final ∷ []))

or_last-IsFallback :
    (stderr : String) (outputs : List SubprocessOutput)
    → IsFallback outputs (or_last none stderr outputs)
or_last-IsFallback stderr [] = inl (refl, refl)
or_last-IsFallback stderr (output ∷ outputs) = inr (last_output-split output outputs)

-- A run ends with the last of its outputs that has a result or an error. If none has, it ends with
-- the last output, and with an error if there is no output.
pub final_output-cases :
    (stderr : String) (outputs : List SubprocessOutput)
    → IsLastMeaningful outputs (final_output stderr outputs)
      ⊎ All (λ output. is_meaningful output ≡ false) outputs
        × IsFallback outputs (final_output stderr outputs)
unfolding final_output
final_output-cases stderr outputs = elim (last_meaningful-cases outputs) [
  | inr (found, e, h) ↦
      inl (subst (IsLastMeaningful outputs) (sym (ap (λ o. or_last o stderr outputs) e)) h)
  | inl (e, no_meaning) ↦ inr (
    no_meaning,
    subst (IsFallback outputs) (sym (ap (λ o. or_last o stderr outputs) e))
        (or_last-IsFallback stderr outputs),
  )
]
