-- ===== src/Ipc/Changes.antt =====
-- How the handlers of secnano/ipc.py may change the registered groups.
use secnano.Prelude.{
  String, ◌≡◌, refl, sym, ap, ◌∙◌, ◌⊎◌, inl, inr, true, false, Bool, ◌==◌, ◌&&◌, any, Option, List,
}
use secnano.Types.{RegisteredGroup}
use secnano.GroupFolder.Safety.{IsFolderName}
use secnano.Db.Groups.{get_registered_group}
use secnano.Host.{Host}
use secnano.ControlPlane.{is_main_group}
use secnano.Ipc.{GroupIpc, is_polled}

abbrev pub group_of : String → Host → Option RegisteredGroup
group_of folder h = get_registered_group folder h.db

-- The `tasks` directory of the folder has a file that a poll handles.
unfoldable pub has_task_file : String → List (String × GroupIpc) → Bool
unfolding any is_polled
has_task_file folder ipc =
    any (λ (e : String × GroupIpc). (e.0 == folder) && any is_polled e.1.tasks) ipc

-- Each folder keeps its group; or its name is safe, its new group is no main group, and one of the
-- folders of which `Known` holds had a main group before.
abbrev pub IsSafeChange : (String → Type 0) → Host → Host → Type 0
IsSafeChange Known h h' =
    (folder : String)
    → (group_of folder h' ≡ group_of folder h)
      ⊎ (IsFolderName folder
          × (is_main_group (group_of folder h') ≡ false)
          × ((source : String) × Known source × (is_main_group (group_of source h) ≡ true)))

module _ (Known : String → Type 0) where
  pub IsSafeChange-same : (h : Host) → IsSafeChange Known h h
  IsSafeChange-same h folder = inl refl

  -- Who is a main group after a safe change was one before.
  main-IsSafeChange :
      (h h' : Host) (source : String)
      → IsSafeChange Known h h'
      → is_main_group (group_of source h') ≡ true
      → is_main_group (group_of source h) ≡ true
  main-IsSafeChange h h' source safe main = elim (safe source) [
    | inl same ↦ ap is_main_group (sym same) ∙ main
    | inr (_, no_main, _) ↦ cc
  ]

  pub IsSafeChange-trans :
      (h h' h'' : Host)
      → IsSafeChange Known h h'
      → IsSafeChange Known h' h''
      → IsSafeChange Known h h''
  IsSafeChange-trans h h' h'' first second folder = elim (second folder) [
    | inr (safe, no_main, (source, known, main)) ↦
        inr (safe, no_main, (source, known, main-IsSafeChange h h' source first main))
    | inl same ↦ elim (first folder) [
      | inl before ↦ inl (same ∙ before)
      | inr (safe, no_main, source) ↦ inr (safe, ap is_main_group same ∙ no_main, source)
    ]
  ]

  pub IsSafeChange-groups :
      (h h' : Host) → h'.db.registered_groups ≡ h.db.registered_groups → IsSafeChange Known h h'
  unfolding get_registered_group
  IsSafeChange-groups h h' same folder = inl (rw same refl)
