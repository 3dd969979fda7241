-- ===== src/AgentRunner/Polls.antt =====
-- `wait_for_ipc_message` of agent_runner/main.py ends, and what it ends with.
use secnano.Prelude.{
  ℕ, zero, suc, ◌+◌, ◌*◌, ◌≤◌, ◌<◌, String, ◌≡◌, refl, ap, false, Option, none, some, List, arith,
  ltb, ltb→lt, Bool-cases, inl, inr, ◌⊎◌,
}
use secnano.Types.{Json}
use secnano.AgentRunner.Waiting.{
  InputDir, Waited, WaitEnd, timed_out, wait_until, wait_for_ipc_message, look_once, after_look,
}

module _ (loads : String → Option (List (String × Json))) (look : ℕ → Option InputDir)
    (clock : ℕ → ℕ) where
  -- The wait ends at the look `last`: the looks before it found nothing, and it comes too late or finds
  -- the answer.
  pub record EndsAt (deadline first last : ℕ) (end : WaitEnd) : Type 0 where
    pub begins : first ≤ last
    pub nothing : (j : ℕ) → first ≤ j → j < last → (look_once loads look clock (look j)).0 ≡ none
    pub answer :
        (deadline ≤ clock last) × (end ≡ timed_out)
        ⊎ (clock last < deadline) × ((look_once loads look clock (look last)).0 ≡ some end)

  -- The look that found nothing, and those behind it.
  nothing_from :
      {deadline : ℕ} {end : WaitEnd} (n last : ℕ) (names : List String) (j : ℕ)
      → look_once loads look clock (look n) ≡ (none, names)
      → EndsAt deadline (n + 1) last end
      → n ≤ j
      → j < last
      → (look_once loads look clock (look j)).0 ≡ none
  nothing_from n last names j same ends low high = elim (Bool-cases (ltb n j)) [
    | inl later ↦ ends.nothing j (omega (arith, ltb→lt n j later)) high
    | inr now ↦
        let e : j ≡ n = ground (arith, now, low) in
        rw e (ap (λ (r : Option WaitEnd × List String). r.0) same)
  ]

  -- One look: the answer, or nothing and then what comes later.
  look-EndsAt :
      (deadline n : ℕ) (found : Option WaitEnd × List String) (later : Waited)
      → look_once loads look clock (look n) ≡ found
      → clock n < deadline
      → (bound : ℕ) → ((last : ℕ) × (last ≤ bound) × EndsAt deadline (n + 1) last later.end)
      → n ≤ bound
      → (last : ℕ) × (last ≤ bound)
        × EndsAt deadline n last (after_look loads look clock found later).end
  look-EndsAt deadline n (some answer, names) later same early bound rest inside = (
    n,
    inside,
    record {
      begins = omega arith;
      nothing = λ j low high. absurd (omega (arith, low, high));
      answer = inr (early, ap (λ (r : Option WaitEnd × List String). r.0) same);
    },
  )
  look-EndsAt deadline n (none, names) later same early bound (last, within, ends) inside = (
    last,
    within,
    record {
      begins = omega (arith, ends.begins);
      nothing = λ j low high. nothing_from n last names j same ends low high;
      answer = ends.answer;
    },
  )

  late_end :
      (deadline n bound : ℕ)
      → deadline ≤ clock n
      → (last : ℕ) × (last ≤ n + bound) × EndsAt deadline n last timed_out
  late_end deadline n bound late = (
    n,
    omega arith,
    record {
      begins = omega arith;
      nothing = λ j low high. absurd (omega (arith, low, high));
      answer = inl (late, refl);
    },
  )

  wait_until-EndsAt :
      (deadline spare n : ℕ)
      → ((k : ℕ) → clock k + 500 ≤ clock (k + 1))
      → deadline ≤ clock n + spare * 500
      → (last : ℕ) × (last ≤ n + spare)
        × EndsAt deadline n last (wait_until loads look clock deadline (suc spare) n).end
  unfolding wait_until
  wait_until-EndsAt deadline zero n slept enough =
      let late : ltb (clock n) deadline ≡ false = ground (arith, enough) in
      rw late (late_end deadline n 0 (omega (arith, enough)))
  wait_until-EndsAt deadline (suc spare) n slept enough =
      let later = wait_until loads look clock deadline (suc spare) (n + 1) in
      elim (Bool-cases (ltb (clock n) deadline)) [
        | inr late ↦ rw late (late_end deadline n (suc spare) (ground (arith, late)))
        | inl early ↦ rw early (
            look-EndsAt deadline n (look_once loads look clock (look n)) later refl
              (ltb→lt (clock n) deadline early) (n + suc spare)
              (let (last, within, ends) =
                  wait_until-EndsAt deadline spare (n + 1) slept (omega (arith, slept n, enough)) in
                (last, omega (arith, within), ends))
              (omega arith))
      ]

  -- If the clock goes on by half a second or more between two looks and does not go back at the start,
  -- the wait needs no more looks than there are half seconds in its timeout, and one: it ends with
  -- the answer of the first look that finds one before the deadline, the sentinel or a message, and
  -- otherwise with a timeout at the first look that comes too late.
  pub wait_for_ipc_message-EndsAt :
      (start timeout spare : ℕ)
      → ((k : ℕ) → clock k + 500 ≤ clock (k + 1))
      → start ≤ clock 0
      → timeout ≤ spare * 500
      → (last : ℕ) × (last ≤ spare)
        × EndsAt
            (start + timeout)
            0
            last
            (wait_for_ipc_message loads look clock start timeout (suc spare)).end
  unfolding wait_for_ipc_message
  wait_for_ipc_message-EndsAt start timeout spare slept begun enough =
      let (last, within, ends) =
        wait_until-EndsAt (start + timeout) spare 0 slept (omega (arith, begun, enough)) in
      (last, omega (arith, within), ends)
