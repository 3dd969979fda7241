-- ===== src/ControlPlane/Registration.antt =====
-- The outcome of an authorized registration in secnano/control_plane.py.
use secnano.Prelude.{
  ◌≡◌, refl, ◌⊎◌, inl, inr, Bool, true, false, ◌&&◌, some, [], ◌∷◌, ◌++◌, ◌==◌, eq_refl, ap, ◌∙◌,
}
use secnano.Types.{IpcTaskRequest}
use secnano.Effect.{ok, raised}
use secnano.Db.Groups.{get_registered_group, jid_taken, unique_failed, upsert_registered_group}
use secnano.Db.Groups.Unique.{upsert_registered_group-outcome}
use secnano.GroupFolder.{is_valid_group_folder}
use secnano.Host.{System, Host, emit_trace, ensure_group_dirs}
use secnano.ControlPlane.{
  is_complete, is_main_group, requested_folder, store_requested_chat, after_upsert, handle_ipc_task,
}
use secnano.ControlPlane.Authority.{
  source_is_main, checked, timed, asked, register-eq, handle_authorized,
  get_registered_group-after_upsert,
}

module _ (sys : System) (task : IpcTaskRequest) (h : Host)
    (kind : (task.type == "register_group") ≡ true) (main : source_is_main sys task h ≡ true)
    (good : (is_complete task && is_valid_group_folder (requested_folder task)) ≡ true) where
  abbrev start : Host
  start = checked sys task h

  handled-eq :
      handle_ipc_task sys task h
      ≡ after_upsert sys task
          (upsert_registered_group (asked sys task start) (timed sys task start).db).0
          (record (timed sys task start) {
            db = (upsert_registered_group (asked sys task start) (timed sys task start).db).1;
          })
  handled-eq = handle_authorized sys task h kind main ∙ rw good (register-eq sys task start)

  -- Another folder has the requested jid already.
  abbrev pub jid_clash : Bool
  jid_clash = jid_taken (asked sys task start) h.db

  -- An authorized, complete and valid request whose jid belongs to another folder raises the UNIQUE
  -- error, and leaves the registered groups and the group directories alone; otherwise it succeeds,
  -- the directories of its folder are made, and the folder finds the requested group.
  pub register_group_outcome :
      (jid_clash ≡ true)
        × ((handle_ipc_task sys task h).0 ≡ raised unique_failed)
        × ((handle_ipc_task sys task h).1.db.registered_groups ≡ h.db.registered_groups)
        × ((handle_ipc_task sys task h).1.group_dirs ≡ h.group_dirs)
      ⊎ (jid_clash ≡ false)
        × ((handle_ipc_task sys task h).0 ≡ ok tt)
        × ((handle_ipc_task sys task h).1.group_dirs ≡ h.group_dirs ++ requested_folder task ∷ [])
        × (get_registered_group (requested_folder task) (handle_ipc_task sys task h).1.db
            ≡ some (asked sys task start))
  unfolding jid_taken store_requested_chat emit_trace ensure_group_dirs
  register_group_outcome =
      let db' = (timed sys task start).db in
      elim (upsert_registered_group-outcome (asked sys task start) db' (requested_folder task)) [
        | inl (taken, e) ↦
            inl (taken, rw (handled-eq, e) refl, rw (handled-eq, e) refl, rw (handled-eq, e) refl)
        | inr (free, done, now) ↦
            let k : Host = record (timed sys task start) {
              db = (upsert_registered_group (asked sys task start) db').1;
            } in
            inr (
              free,
              rw (handled-eq, done) refl,
              rw (handled-eq, done) refl,
              rw (handled-eq, done)
                  (get_registered_group-after_upsert sys task start (requested_folder task) (ok tt)
                      k
                    ∙ now
                    ∙ rw eq_refl refl),
            )
      ]

  -- A main group that requests its own folder, with a jid that no other folder has, is registered
  -- over: afterwards it is no main group, and its next `register_group` would be refused.
  pub register_own_folder :
      requested_folder task ≡ task.source_group
      → jid_clash ≡ false
      → ((handle_ipc_task sys task h).0 ≡ ok tt)
        × (source_is_main sys task (handle_ipc_task sys task h).1 ≡ false)
  register_own_folder own free = elim register_group_outcome [
    | inl (taken, _, _, _) ↦ cc
    | inr (_, done, _, now) ↦ (done, ap is_main_group (rw own at now))
  ]
