-- ===== src/Effect.antt =====
-- Outcomes of code that may raise. An exception is its text, `str(exc)`: the handlers of the
-- program catch `Exception` and use nothing else of it.
use secnano.Prelude.{String, Bool, true, false}

pub data Result {ℓ} (A : Type ℓ) : Type ℓ where
  ok : A → Result A
  raised : String → Result A

abbrev pub is_ok {ℓ} : {A : Type ℓ} → Result A → Bool
is_ok (ok a) = true
is_ok (raised e) = false

-- What comes next is left out if an exception was raised.
abbrev pub and_then {ℓ k} : {A : Type ℓ} {B : Type k} → Result A → (A → Result B) → Result B
and_then (raised e) next = raised e
and_then (ok a) next = next a
