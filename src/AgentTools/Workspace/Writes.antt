-- ===== src/AgentTools/Workspace/Writes.antt =====
-- `write_file` and `edit_file` of agent_runner/tools.py keep the files outside the workspace.
use secnano.Prelude.{String, ◌≡◌, ◌≢◌, refl, ◌∙◌, ◌⧺◌, str_len, show, Bool-cases, inl, inr}
use secnano.Effect.{Result, ok, raised}
use secnano.AgentTools.Search.{contains, replace_first}
use secnano.AgentTools.FileSystem.{IsFileSystem, Outcome, done, no_such_file, failed, safe_path}
use secnano.AgentTools.Files.{
  write_file, write_at, write_below, write_answer, edit_file, edit_at, edit_read, edit_answer,
}
use secnano.AgentTools.Requests.{}
use secnano.AgentTools.Dispatch.{ToolWorld}
use secnano.AgentTools.Workspace.{IsOutside, Same, safe_path-IsOutside}

module _ {Disk : Type 0} (w : ToolWorld Disk) (laws : IsFileSystem w.fs) (q : String) where
  write_below-Same :
      (path safe content : String) (d d' : Disk) (o : Outcome (Unit {0}))
      → Same w q d d'
      → q ≢ safe
      → Same w q d (write_below w.fs w.repr path safe content (o, d')).1
  write_below-Same path safe content d d' (no_such_file e) same out = same
  write_below-Same path safe content d d' (failed e) same out = same
  write_below-Same path safe content d d' (done u) same out =
      write_answer-Same (w.fs.write_text safe content d')
        (laws.write_text-others safe q content d' out ∙ same)
    where
      write_answer-Same :
          (r : Outcome (Unit {0}) × Disk)
          → Same w q d r.1
          → Same w q d
              (write_answer w.fs w.repr
                ("Written " ⧺ show (str_len content) ⧺ " bytes to " ⧺ path)
                r).1
      write_answer-Same (done u, e) h = h
      write_answer-Same (no_such_file x, e) h = h
      write_answer-Same (failed x, e) h = h

  edit_answer-Same :
      (path : String) (d : Disk) (r : Outcome (Unit {0}) × Disk)
      → Same w q d r.1
      → Same w q d (edit_answer w.fs w.repr path r).1
  edit_answer-Same path d (done u, e) h = h
  edit_answer-Same path d (no_such_file x, e) h = h
  edit_answer-Same path d (failed x, e) h = h

  pub write_file-Same :
      (path content cwd : String) (d : Disk)
      → IsOutside w cwd q d
      → Same w q d (write_file w.fs w.repr path content cwd d).1
  unfolding write_file
  write_file-Same path content cwd d out = go (safe_path w.fs w.repr path cwd d) refl
    where
      go :
          (r : Result String)
          → safe_path w.fs w.repr path cwd d ≡ r
          → Same w q d (write_at w.fs w.repr path content d r).1
      go (raised e) h = refl
      go (ok safe) h =
          let made_parent = w.fs.make_parent safe d in
          write_below-Same path safe content d made_parent.1 made_parent.0
            (laws.make_parent-others safe q d)
            (safe_path-IsOutside w.fs w.repr path cwd safe q d out.workspace h)

  edit_read-Same :
      (path safe old_str new_str : String) (d : Disk) (o : Outcome String)
      → q ≢ safe
      → Same w q d (edit_read w.fs w.repr path safe old_str new_str d o).1
  edit_read-Same path safe old_str new_str d (no_such_file e) out = refl
  edit_read-Same path safe old_str new_str d (failed e) out = refl
  edit_read-Same path safe old_str new_str d (done original) out =
      elim (Bool-cases (contains old_str original)) [
        | inl e ↦ rw e (
            edit_answer-Same path d
              (w.fs.write_text safe (replace_first old_str new_str original) d)
              (laws.write_text-others safe q (replace_first old_str new_str original) d out))
        | inr e ↦ rw e refl
      ]

  pub edit_file-Same :
      (path old_str new_str cwd : String) (d : Disk)
      → IsOutside w cwd q d
      → Same w q d (edit_file w.fs w.repr path old_str new_str cwd d).1
  unfolding edit_file
  edit_file-Same path old_str new_str cwd d out = go (safe_path w.fs w.repr path cwd d) refl
    where
      go :
          (r : Result String)
          → safe_path w.fs w.repr path cwd d ≡ r
          → Same w q d (edit_at w.fs w.repr path old_str new_str d r).1
      go (raised e) h = refl
      go (ok safe) h =
          edit_read-Same path safe old_str new_str d (w.fs.read_text safe d)
            (safe_path-IsOutside w.fs w.repr path cwd safe q d out.workspace h)
