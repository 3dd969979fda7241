-- ===== src/AgentRunner/Alternation.antt =====
-- The shape of the conversations of agent_runner/main.py.
use secnano.Prelude.{
  ℕ, zero, suc, ◌+◌, ◌-◌, ◌≤◌, String, ◌≡◌, refl, Option, none, some, List, [], ◌∷◌, ◌++◌, map,
  arith, ltb, ltb→lt, drop, length, length-drop, opt_true, if-cases, Bool-cases, inl, inr,
}
use secnano.AgentRunner.Session.{
  Block, text_block, tool_use, other_block, ToolResult, Turn, user_turn, results_turn,
  assistant_turn, SessionFile, absent, unreadable, no_list, history, trim, history_of, load_session,
  save_session,
}

abbrev pub tool_use_ids : List Block → List String
tool_use_ids [] = []
tool_use_ids (tool_use id name input ∷ blocks) = id ∷ tool_use_ids blocks
tool_use_ids (text_block s ∷ blocks) = tool_use_ids blocks
tool_use_ids (other_block s ∷ blocks) = tool_use_ids blocks

-- A turn of the user, behind an answer of the assistant or, with `none`, behind what was cut off:
-- results answer the tool uses of that answer, each once and in their order.
abbrev pub Fits : Option (List Block) → Turn → Type 0
Fits before (user_turn s) = Unit
Fits before (assistant_turn blocks) = ⊥
Fits none (results_turn results) = Unit
Fits (some blocks) (results_turn results) =
    map (λ (r : ToolResult). r.tool_use_id) results ≡ tool_use_ids blocks

-- Turns of the user and of the assistant by turns, from a user's to an assistant's.
abbrev pub IsTalk : Option (List Block) → List Turn → Type 0
IsTalk before [] = Unit
IsTalk before (ask ∷ []) = ⊥
IsTalk before (ask ∷ assistant_turn blocks ∷ turns) = Fits before ask × IsTalk (some blocks) turns
IsTalk before (ask ∷ user_turn s ∷ turns) = ⊥
IsTalk before (ask ∷ results_turn results ∷ turns) = ⊥

abbrev pub last_answer : Option (List Block) → List Turn → Option (List Block)
last_answer before [] = before
last_answer before (ask ∷ []) = before
last_answer before (ask ∷ assistant_turn blocks ∷ turns) = last_answer (some blocks) turns
last_answer before (ask ∷ user_turn s ∷ turns) = before
last_answer before (ask ∷ results_turn results ∷ turns) = before

-- Such turns, and one more of the user.
pub record IsRequest (turns : List Turn) : Type 0 where
  pub talk : List Turn
  pub ask : Turn
  pub split : turns ≡ talk ++ ask ∷ []
  pub talks : IsTalk none talk
  pub fits : Fits (last_answer none talk) ask

-- A session file that can be read has such turns, and no more than 50.
abbrev pub IsSession : SessionFile → Type 0
IsSession absent = Unit
IsSession unreadable = Unit
IsSession no_list = Unit
IsSession (history turns) = IsTalk none turns × (length turns ≤ 50)

Fits-none : (before : Option (List Block)) (ask : Turn) → Fits before ask → Fits none ask
Fits-none before (user_turn s) h = tt
Fits-none before (results_turn results) h = tt
Fits-none before (assistant_turn blocks) h = h

IsTalk-none :
    (before : Option (List Block)) (turns : List Turn) → IsTalk before turns → IsTalk none turns
IsTalk-none before [] h = tt
IsTalk-none before (ask ∷ []) h = h
IsTalk-none before (ask ∷ assistant_turn blocks ∷ turns) h = (Fits-none before ask h.0, h.1)
IsTalk-none before (ask ∷ user_turn s ∷ turns) h = h
IsTalk-none before (ask ∷ results_turn results ∷ turns) h = h

pub IsTalk-snoc :
    (before : Option (List Block)) (talk : List Turn) (ask : Turn) (blocks : List Block)
    → IsTalk before talk
    → Fits (last_answer before talk) ask
    → IsTalk before (talk ++ ask ∷ assistant_turn blocks ∷ [])
IsTalk-snoc before [] ask blocks h fits = (fits, tt)
IsTalk-snoc before (first ∷ assistant_turn more ∷ talk) ask blocks h fits =
    (h.0, IsTalk-snoc (some more) talk ask blocks h.1 fits)
IsTalk-snoc before (first ∷ []) ask blocks h fits = absurd h
IsTalk-snoc before (first ∷ user_turn s ∷ talk) ask blocks h fits = absurd h
IsTalk-snoc before (first ∷ results_turn results ∷ talk) ask blocks h fits = absurd h

pub last_answer-snoc :
    (before : Option (List Block)) (talk : List Turn) (ask : Turn) (blocks : List Block)
    → IsTalk before talk
    → last_answer before (talk ++ ask ∷ assistant_turn blocks ∷ []) ≡ some blocks
last_answer-snoc before [] ask blocks h = refl
last_answer-snoc before (first ∷ assistant_turn more ∷ talk) ask blocks h =
    last_answer-snoc (some more) talk ask blocks h.1
last_answer-snoc before (first ∷ []) ask blocks h = absurd h
last_answer-snoc before (first ∷ user_turn s ∷ talk) ask blocks h = absurd h
last_answer-snoc before (first ∷ results_turn results ∷ talk) ask blocks h = absurd h

-- There are as many turns of the user as of the assistant.
IsTalk-even :
    (before : Option (List Block)) (turns : List Turn)
    → IsTalk before turns
    → (n : ℕ) × (length turns ≡ n + n)
IsTalk-even before [] h = (0, refl)
IsTalk-even before (ask ∷ assistant_turn blocks ∷ turns) h =
    let (n, same) = IsTalk-even (some blocks) turns h.1 in (n + 1, omega (arith, same))
IsTalk-even before (ask ∷ []) h = absurd h
IsTalk-even before (ask ∷ user_turn s ∷ turns) h = absurd h
IsTalk-even before (ask ∷ results_turn results ∷ turns) h = absurd h

drop-IsTalk :
    (k n : ℕ) (before : Option (List Block)) (turns : List Turn)
    → k ≡ n + n
    → IsTalk before turns
    → IsTalk none (drop k turns)
drop-IsTalk zero n before turns same h = IsTalk-none before turns h
drop-IsTalk (suc zero) n before turns same h = absurd (omega (arith, same))
drop-IsTalk (suc (suc k)) n before [] same h = tt
drop-IsTalk (suc (suc k)) n before (ask ∷ assistant_turn blocks ∷ turns) same h =
    drop-IsTalk k (n - 1) (some blocks) turns (omega (arith, same)) h.1
drop-IsTalk (suc (suc k)) n before (ask ∷ []) same h = absurd h
drop-IsTalk (suc (suc k)) n before (ask ∷ user_turn s ∷ turns) same h = absurd h
drop-IsTalk (suc (suc k)) n before (ask ∷ results_turn results ∷ turns) same h = absurd h

pub save_session-IsSession :
    (turns : List Turn) → IsTalk none turns → IsSession (save_session turns)
unfolding save_session trim
save_session-IsSession turns h = elim (Bool-cases (ltb 50 (length turns))) [
  | inr short ↦ rw short (h, ground (arith, short))
  | inl long ↦
      let (n, same) = IsTalk-even none turns h in
      let more = ltb→lt 50 (length turns) long in
      rw long (
        drop-IsTalk (length turns - 50) (n - 25) none turns (omega (arith, same, more)) h,
        omega (arith, length-drop (length turns - 50) turns),
      )
]

history_of-IsTalk : (file : SessionFile) → IsSession file → IsTalk none (history_of file)
history_of-IsTalk absent h = tt
history_of-IsTalk unreadable h = tt
history_of-IsTalk no_list h = tt
history_of-IsTalk (history turns) h = h.0

pub load_session-IsTalk :
    (session_id : Option String) (file : SessionFile)
    → IsSession file
    → IsTalk none (load_session session_id file)
unfolding load_session
load_session-IsTalk session_id file h =
    if-cases (IsTalk none) (opt_true session_id) (history_of file) [] (history_of-IsTalk file h) tt
