-- ===== src/Handshake/Messages.antt =====
-- Messages of the host to a running agent: from `send_message` and `close_stdin` of
-- secnano/group_queue.py over the input directory to `wait_for_ipc_message` of agent_runner/main.py.
use secnano.Prelude.{
  ℕ, zero, suc, String, ◌≡◌, refl, ap, ◌∙◌, true, false, not, ◌&&◌, Option, none, some, List, [],
  ◌∷◌, ◌++◌, ◌==◌, eq_refl, map, select, All, length, is_some, str_le, any,
}
use mathlib.Core.List.{append-nil, append_assoc}
use secnano.Types.{Json, text}
use secnano.JsonValue.{text_field}
use secnano.Db.Sort.{sort, sort_insert, ascending}
use secnano.Ipc.{FileEntry, is_polled, json_stem}
use secnano.GroupQueue.{IpcInput, message, close_sentinel}
use secnano.AgentRunner.Waiting.{
  InputDir, WaitEnd, received, closed, sentinel_name, take_first, look_once,
}

-- The object that `send_message` writes.
abbrev pub message_members : String → List (String × Json)
message_members content = ("content", text content) ∷ []

-- The directory without the files that a look removed.
abbrev pub unlink : List String → InputDir → InputDir
unlink names dir = record {
  closing = dir.closing && not (any (λ (n : String). n == sentinel_name) names);
  entries = select (λ (e : FileEntry). not (any (λ (n : String). n == e.name) names)) dir.entries;
}

-- Names with the suffix `.json`, each behind those before it.
abbrev pub IsInOrder : List (String × String) → Type 0
IsInOrder [] = Unit
IsInOrder (m ∷ ms) =
    (is_some (json_stem m.0) ≡ true)
    × All (λ (n : String × String). (str_le m.0 n.0 ≡ true) × ((m.0 == n.0) ≡ false)) ms
    × IsInOrder ms

abbrev pub sent_all : String → List (String × String) → List IpcInput
sent_all folder ms = map (λ (m : String × String). message folder m.0 m.1) ms

abbrev pub empty_dir : InputDir
empty_dir = record { closing = false; entries = [] }

module _ (dumps : List (String × Json) → String) where
  abbrev pub message_file : (filename content : String) → FileEntry
  message_file filename content = record {
    name = filename;
    content = some (dumps (message_members content));
  }

  -- A file that the host writes; the names of messages are new, by their random part.
  abbrev pub put_file : InputDir → IpcInput → InputDir
  put_file dir (message folder filename content) = record dir {
    entries = dir.entries ++ message_file filename content ∷ [];
  }
  put_file dir (close_sentinel folder) = record dir { closing = true }

  abbrev pub put_all : InputDir → List IpcInput → InputDir
  put_all dir [] = dir
  put_all dir (file ∷ files) = put_all (put_file dir file) files

module _ (loads : String → Option (List (String × Json))) where
  -- So many looks of the agent, with nothing written meanwhile.
  unfoldable pub looks : ℕ → InputDir → List (Option WaitEnd)
  looks zero dir = []
  looks (suc n) dir =
      let (answer, names) = look_once loads (λ _. none) (λ _. 0) (some dir) in
      answer ∷ looks n (unlink names dir)

module _ (dumps : List (String × Json) → String)
    (loads : String → Option (List (String × Json))) where
  abbrev files_of : List (String × String) → List FileEntry
  files_of ms = map (λ (m : String × String). message_file dumps m.0 m.1) ms

  put_all-files :
      (folder : String) (ms : List (String × String)) (dir : InputDir)
      → put_all dumps dir (sent_all folder ms) ≡ record dir { entries = dir.entries ++ files_of ms }
  put_all-files folder [] dir = rw (append-nil dir.entries) refl
  put_all-files folder (m ∷ ms) dir =
      put_all-files folder ms (put_file dumps dir (message folder m.0 m.1))
      ∙ ap (λ (l : List FileEntry). record dir { entries = l })
          (append_assoc dir.entries (message_file dumps m.0 m.1 ∷ []) (files_of ms))

  select-polled :
      (ms : List (String × String)) → IsInOrder ms → select is_polled (files_of ms) ≡ files_of ms
  unfolding select is_polled
  select-polled [] h = refl
  select-polled (m ∷ ms) (polled, first, rest) = rw (polled, select-polled ms rest) refl

  sort-files :
      (ms : List (String × String))
      → IsInOrder ms
      → sort (ascending (λ (e : FileEntry). e.name)) (files_of ms) ≡ files_of ms
  unfolding sort sort_insert
  sort-files [] h = refl
  sort-files (m ∷ []) h = refl
  sort-files (m ∷ n ∷ ms) (polled, first, rest) = rw (sort-files (n ∷ ms) rest, first.0.0) refl

  select-others :
      (m : String × String) (ms : List (String × String))
      → All (λ (n : String × String). (str_le m.0 n.0 ≡ true) × ((m.0 == n.0) ≡ false)) ms
      → select (λ (e : FileEntry). not (any (λ (n : String). n == e.name) (m.0 ∷ []))) (files_of ms)
        ≡ files_of ms
  unfolding select any
  select-others m [] h = refl
  select-others m (n ∷ ms) h = rw (h.0.1, select-others m ms h.1) refl

  -- `json.loads` undoes `json.dumps` on these messages.
  abbrev pub AreReadBack : List (String × String) → Type 0
  AreReadBack ms =
      All
        (λ (m : String × String). loads (dumps (message_members m.1)) ≡ some (message_members m.1))
        ms

  abbrev dir_of : List (String × String) → InputDir
  dir_of ms = record { closing = false; entries = files_of ms }

  first_look :
      (m : String × String) (ms : List (String × String))
      → IsInOrder (m ∷ ms)
      → loads (dumps (message_members m.1)) ≡ some (message_members m.1)
      → look_once loads (λ _. none) (λ _. 0) (some (dir_of (m ∷ ms)))
        ≡ (some (received m.1), m.0 ∷ [])
  unfolding text_field
  first_look m ms h back =
      ap
        (λ (l : List FileEntry).
          take_first loads (λ _. none) (λ _. 0) (sort (ascending (λ (e : FileEntry). e.name)) l))
        (select-polled (m ∷ ms) h)
      ∙ ap (take_first loads (λ _. none) (λ _. 0)) (sort-files (m ∷ ms) h)
      ∙ rw back refl

  after_first :
      (m : String × String) (ms : List (String × String))
      → IsInOrder (m ∷ ms)
      → (unlink (m.0 ∷ []) (dir_of (m ∷ ms))).entries ≡ files_of ms
  unfolding select any
  after_first m ms h = rw (eq_refl m.0) (select-others m ms h.1)

  looks-files :
      (ms : List (String × String))
      → IsInOrder ms
      → AreReadBack ms
      → looks loads (length ms) (dir_of ms) ≡ map (λ (m : String × String). some (received m.1)) ms
  unfolding looks
  looks-files [] h back = refl
  looks-files (m ∷ ms) h back =
      ap
        (λ (r : Option WaitEnd × List String).
          r.0 ∷ looks loads (length ms) (unlink r.1 (dir_of (m ∷ ms))))
        (first_look m ms h back.0)
      ∙ ap
          (λ (l : List FileEntry).
            some (received m.1) ∷ looks loads (length ms) (record { closing = false; entries = l }))
          (after_first m ms h)
      ∙ ap (λ (l : List (Option WaitEnd)). some (received m.1) ∷ l) (looks-files ms h.2 back.1)

  put_all-closing :
      (files : List IpcInput) (dir : InputDir)
      → dir.closing ≡ true
      → (put_all dumps dir files).closing ≡ true
  put_all-closing [] dir h = h
  put_all-closing (message folder filename content ∷ files) dir h =
      put_all-closing files (put_file dumps dir (message folder filename content)) h
  put_all-closing (close_sentinel folder ∷ files) dir h =
      put_all-closing files (put_file dumps dir (close_sentinel folder)) refl

  looks-closed : (dir : InputDir) → dir.closing ≡ true → looks loads 1 dir ≡ some closed ∷ []
  unfolding looks
  looks-closed dir h = rw h refl

  -- If `json.loads` undoes `json.dumps` on the messages and each name stands behind those before it,
  -- the agent that looks once for each message receives them all, in the order in which the host sent
  -- them. As soon as the host has written the sentinel, the next look closes, whatever
  -- messages were sent before and behind it.
  pub looks-received :
      (folder : String) (ms : List (String × String)) (before after : List IpcInput)
      → IsInOrder ms
      → AreReadBack ms
      → (looks loads (length ms) (put_all dumps empty_dir (sent_all folder ms))
          ≡ map (λ (m : String × String). some (received m.1)) ms)
        × (looks loads 1 (
              put_all dumps
                (put_file dumps (put_all dumps empty_dir before) (close_sentinel folder))
                after)
            ≡ some closed ∷ [])
  looks-received folder ms before after h back = (
    rw (put_all-files folder ms empty_dir) (looks-files ms h back),
    looks-closed _ (
        put_all-closing after
          (put_file dumps (put_all dumps empty_dir before) (close_sentinel folder)) refl),
  )
