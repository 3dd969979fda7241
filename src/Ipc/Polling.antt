-- ===== src/Ipc/Polling.antt =====
-- A relation that every handler of secnano/ipc.py keeps is kept by a poll of a directory.
use secnano.Prelude.{
  String, ◌≡◌, refl, ◌∙◌, sym, true, ◌&&◌, any, is_some, Option, none, some, List, [], ◌∷◌, arith,
}
use secnano.Effect.{Result}
use secnano.Db.Sort.{sort, ascending, any-sort}
use secnano.Ipc.{FileEntry, is_polled, json_stem, handle_entries, handle_file, poll_directory}

module _ {ℓ κ} {S : Type ℓ} (handler : String → String → S → Result (Unit {0}) × S)
    (R : S → S → Type κ) (same : (s : S) → R s s)
    (trans : (s t u : S) → R s t → R t u → R s u) where
  abbrev Keeps : Type (ℓ ⊔ κ)
  Keeps = (stem content : String) (s : S) → R s (handler stem content s).1

  handle_file-keeps :
      (stem content : Option String) (s : S)
      → ((is_some stem && is_some content) ≡ true → Keeps)
      → R s (handle_file handler stem content s)
  handle_file-keeps none content s keeps = same s
  handle_file-keeps (some stem) none s keeps = same s
  handle_file-keeps (some stem) (some content) s keeps = keeps refl stem content s

  handle_entries-keeps :
      (entries : List FileEntry) (s : S)
      → (any is_polled entries ≡ true → Keeps)
      → R s (handle_entries handler entries s)
  unfolding handle_entries any is_polled
  handle_entries-keeps [] s keeps = same s
  handle_entries-keeps (entry ∷ entries) s keeps =
      let t = handle_file handler (json_stem entry.name) entry.content s in
      trans s t (handle_entries handler entries t)
        (handle_file-keeps (json_stem entry.name) entry.content s (λ h. keeps (ground (arith, h))))
        (handle_entries-keeps entries t (λ h. keeps (ground (arith, h))))

  -- The handler has to keep the relation only if the poll handles a file.
  pub poll_directory-keeps :
      (entries : List FileEntry) (s : S)
      → (any is_polled entries ≡ true → Keeps)
      → R s (poll_directory handler entries s).1
  unfolding poll_directory
  poll_directory-keeps entries s keeps =
      let by_name = ascending (λ (e : FileEntry). e.name) in
      handle_entries-keeps (sort by_name entries) s
        (λ h. keeps (sym (any-sort is_polled by_name entries) ∙ h))
