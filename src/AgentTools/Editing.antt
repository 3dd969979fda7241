-- ===== src/AgentTools/Editing.antt =====
-- What `edit_file` of agent_runner/tools.py writes.
use secnano.Prelude.{String, ◌≡◌, ◌≢◌, refl, ap, ◌∙◌, ◌⊎◌, inl, inr, ◌⧺◌, Bool-cases}
use secnano.Effect.{ok}
use secnano.AgentTools.Search.{contains, replace_first}
use secnano.AgentTools.Replacing.{FirstAt, contains-nowhere, replace_first-FirstAt}
use secnano.AgentTools.FileSystem.{FileSystem, done, safe_path}
use secnano.AgentTools.Files.{edit_file, edit_answer, edit_at, edit_read, tool_error}

module _ {Disk : Type 0} (fs : FileSystem Disk) (repr : String → String) where
  edit_file-steps :
      (path old_str new_str cwd safe original : String) (d : Disk)
      → safe_path fs repr path cwd d ≡ ok safe
      → fs.read_text safe d ≡ done original
      → edit_file fs repr path old_str new_str cwd d
        ≡ edit_read fs repr path safe old_str new_str d (done original)
  unfolding edit_file
  edit_file-steps path old_str new_str cwd safe original d allowed read =
      ap (edit_at fs repr path old_str new_str d) allowed
      ∙ ap (edit_read fs repr path safe old_str new_str d) read

  -- On a file inside the workspace that can be read: if the text holds `old_str` nowhere, nothing is
  -- written and the answer says so; otherwise the file is written with `new_str` in place of the first
  -- `old_str`, the text before and behind it as they were, and the answer is that of the write.
  pub edit_file-FirstAt :
      (path old_str new_str cwd safe original : String) (d : Disk)
      → safe_path fs repr path cwd d ≡ ok safe
      → fs.read_text safe d ≡ done original
      → ((before rest : String) → original ≢ before ⧺ old_str ⧺ rest)
          × (edit_file fs repr path old_str new_str cwd d
              ≡ (tool_error ("String not found in " ⧺ path), d))
        ⊎ (f : FirstAt old_str original) × (edit_file fs repr path old_str new_str cwd d
            ≡ edit_answer fs repr path (fs.write_text safe (f.before ⧺ new_str ⧺ f.rest) d))
  unfolding contains replace_first ◌⧺◌
  edit_file-FirstAt path old_str new_str cwd safe original d allowed read =
      let steps = edit_file-steps path old_str new_str cwd safe original d allowed read in
      elim (Bool-cases (contains old_str original)) [
        | inl e ↦
            let (f, replaced) = replace_first-FirstAt old_str new_str original e in
            inr (f, steps ∙ rw (e, replaced) refl)
        | inr e ↦
            inl (λ before rest. contains-nowhere old_str original before rest e, steps ∙ rw e refl)
      ]
