-- ===== src/AgentRunner/Waiting.antt =====
-- `wait_for_ipc_message` of agent_runner/main.py. `loads` is `json.loads` of a file that can be read,
-- `none` for a `JSONDecodeError`; the host writes objects to these files.
use secnano.Prelude.{
  ℕ, zero, suc, ◌+◌, String, Bool, Option, none, some, List, [], ◌∷◌, ◌++◌, if◌then◌else◌, ltb,
  select,
}
use secnano.Types.{Json, null}
use secnano.Db.Sort.{sort, ascending}
use secnano.JsonValue.{get_item, str_of}
use secnano.Ipc.{FileEntry, is_polled}

-- The input directory at one look, and whether the file `_close` is there.
pub record InputDir : Type 0 where
  pub closing : Bool
  pub entries : List FileEntry

-- `unfinished` is the answer of the model for too little fuel only.
pub data WaitEnd : Type 0 where
  received : String → WaitEnd
  closed : WaitEnd
  timed_out : WaitEnd
  unfinished : WaitEnd

-- How the wait ended, and the names of the files that it removed.
pub record Waited : Type 0 where
  pub end : WaitEnd
  pub removed : List String

abbrev pub sentinel_name : String
sentinel_name = "_close"

-- The files with the suffix `.json`, in the order of their names.
abbrev pub json_files : InputDir → List FileEntry
json_files dir = sort (ascending (λ (e : FileEntry). e.name)) (select is_polled dir.entries)

abbrev text_of : Option String → String
text_of none = ""
text_of (some s) = s

-- What a wait returns for `data.get("content", "")`: a null is None, as for the sentinel. The host
-- writes texts only; a number or a flag, which the code returns as it is, stands as its text.
abbrev pub content_end : Option Json → WaitEnd
content_end none = received ""
content_end (some null) = closed
content_end (some v) = received (str_of v)

module _ (loads : String → Option (List (String × Json))) (look : ℕ → Option InputDir)
    (clock : ℕ → ℕ) where
  -- What one look finds: a message, or nothing, with the files that are removed. A file that cannot
  -- be removed is left out, as is a file whose JSON is no object: `get` raises there.
  abbrev pub take_first : List FileEntry → Option WaitEnd × List String
  take_first [] = (none, [])
  take_first (file ∷ files) = elim (loads (text_of file.content)) [
    | none ↦ (none, file.name ∷ [])
    | some fields ↦ (some (content_end (get_item "content" fields)), file.name ∷ [])
  ]

  abbrev pub look_once : Option InputDir → Option WaitEnd × List String
  look_once none = (none, [])
  look_once (some dir) =
      if dir.closing then (some closed, sentinel_name ∷ []) else take_first (json_files dir)

  abbrev pub after_look : Option WaitEnd × List String → Waited → Waited
  after_look (none, names) later = record later { removed = names ++ later.removed }
  after_look (some answer, names) later = record { end = answer; removed = names }

  -- The loop, from the `n`-th look on; `clock n` is the time just before it, in milliseconds.
  unfoldable pub wait_until : (deadline fuel n : ℕ) → Waited
  unfolding sort get_item is_polled
  wait_until deadline zero n = record { end = unfinished; removed = [] }
  wait_until deadline (suc fuel) n =
      let later = wait_until deadline fuel (n + 1) in
      if ltb (clock n) deadline
      then after_look (look_once (look n)) later
      else record { end = timed_out; removed = [] }

-- `wait_for_ipc_message`: the deadline is `timeout` behind the first reading of the clock, `start`.
unfoldable pub wait_for_ipc_message :
    (loads : String → Option (List (String × Json)))
    → (look : ℕ → Option InputDir) → (clock : ℕ → ℕ) → (start timeout fuel : ℕ) → Waited
unfolding wait_until
wait_for_ipc_message loads look clock start timeout fuel =
    wait_until loads look clock (start + timeout) fuel 0
