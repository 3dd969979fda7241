-- ===== src/ControlPlane/Authority.antt =====
-- Who may change the registered groups through secnano/control_plane.py, and how.
use mathlib.Core.Path.{subst}
use secnano.Prelude.{
  String, ◌≡◌, refl, ◌⊎◌, inl, inr, Bool, true, false, Option, some, arith, ◌==◌, eq_iff,
  if◌then◌else◌, Bool-cases, ◌&&◌, ap, ◌∙◌,
}
use secnano.Types.{IpcTaskRequest, RegisteredGroup}
use secnano.Effect.{Result, ok, raised}
use secnano.Db.Database.{Database}
use secnano.Db.Groups.{get_registered_group, upsert_registered_group}
use secnano.Db.Groups.Unique.{upsert_registered_group-outcome}
use secnano.GroupFolder.{is_valid_group_folder}
use secnano.GroupFolder.Safety.{IsFolderName, is_valid_group_folder_stripped}
use secnano.Host.{System, Host, emit_trace, ensure_group_dirs, now_utc}
use secnano.JsonValue.{get_item}
use secnano.ControlPlane.{
  is_main_group, is_complete, requested_folder, requested_group, register, reject,
  store_requested_chat, handle_ipc_task, text_item, task_trace, after_upsert, item_text,
}

-- Everything but the trace, the clock and the UUIDs.
pub record SameButTrace (h h' : Host) : Type 0 where
  pub db : h'.db ≡ record h.db { trace_events = h'.db.trace_events }
  pub group_dirs : h'.group_dirs ≡ h.group_dirs
  pub enqueued : h'.enqueued ≡ h.enqueued

module _ (sys : System) (task : IpcTaskRequest) (h : Host) where
  -- The group that sent the task is a registered main group.
  abbrev pub source_is_main : Bool
  source_is_main = is_main_group (get_registered_group task.source_group h.db)

  abbrev pub received : Host
  received = emit_trace sys (task_trace task "ipc_task.received" "accepted") h

  abbrev pub checked : Host
  checked = emit_trace sys (task_trace task "ipc_task.auth_checked" "success") received

  handle_other :
      (task.type == "register_group") ≡ false → handle_ipc_task sys task h ≡ (ok tt, received)
  unfolding handle_ipc_task
  handle_other other = rw other

  handle_rejected :
      (task.type == "register_group") ≡ true
      → source_is_main ≡ false
      → handle_ipc_task sys task h ≡ (ok tt, reject sys task received)
  unfolding handle_ipc_task get_registered_group
  handle_rejected kind no_main = rw (kind, no_main)

  pub handle_authorized :
      (task.type == "register_group") ≡ true
      → source_is_main ≡ true
      → handle_ipc_task sys task h ≡ (
          if is_complete task && is_valid_group_folder (requested_folder task)
          then register sys task checked
          else (ok tt, checked))
  unfolding handle_ipc_task get_registered_group
  handle_authorized kind main =
      rw (kind, main)
        (elim (Bool-cases (is_complete task)) [
          | inl c ↦ rw c (elim (Bool-cases (is_valid_group_folder (requested_folder task))) [
            | inl v ↦ rw v
            | inr v ↦ rw v
          ])
          | inr c ↦ rw c
        ])

  received-SameButTrace : SameButTrace h received
  unfolding emit_trace
  received-SameButTrace = record { db = refl; group_dirs = refl; enqueued = refl }

  rejected-SameButTrace : SameButTrace h (reject sys task received)
  unfolding reject
  rejected-SameButTrace = record { db = refl; group_dirs = refl; enqueued = refl }

  -- A request that is no `register_group`, or that does not come from a registered main group, is
  -- answered without an error and changes nothing but the trace.
  pub handle_ipc_task_unauthorized :
      ((task.type == "register_group") && source_is_main) ≡ false
      → ((handle_ipc_task sys task h).0 ≡ ok tt) × SameButTrace h (handle_ipc_task sys task h).1
  handle_ipc_task_unauthorized no_right = elim (Bool-cases (task.type == "register_group")) [
    | inl kind ↦ rw (handle_rejected kind (rw kind at no_right)) (refl, rejected-SameButTrace)
    | inr other ↦ rw (handle_other other) (refl, received-SameButTrace)
  ]

-- What an authorized and complete request may do to the group of a folder.
pub record IsGranted (task : IpcTaskRequest) (folder : String) (now : Option RegisteredGroup)
    : Type 0 where
  pub complete : is_complete task ≡ true
  pub named : requested_folder task ≡ folder
  pub safe : IsFolderName folder
  pub added_at : String
  pub written : now ≡ some (requested_group task added_at)

module _ (sys : System) (task : IpcTaskRequest) (h : Host) where
  abbrev pub timed : Host
  timed = (now_utc sys (store_requested_chat sys task h)).1

  abbrev pub asked : RegisteredGroup
  asked = requested_group task (sys.clock (store_requested_chat sys task h).ticks)

  pub register-eq :
      register sys task h
      ≡ after_upsert sys task
          (upsert_registered_group asked timed.db).0
          (record timed { db = (upsert_registered_group asked timed.db).1 })
  unfolding register
  register-eq = refl

  pub get_registered_group-timed :
      (folder : String) → get_registered_group folder timed.db ≡ get_registered_group folder h.db
  unfolding store_requested_chat get_registered_group
  get_registered_group-timed folder = refl

  pub get_registered_group-after_upsert :
      (folder : String) (r : Result (Unit {0})) (k : Host)
      → get_registered_group folder (after_upsert sys task r k).1.db
        ≡ get_registered_group folder k.db
  unfolding emit_trace ensure_group_dirs get_registered_group
  get_registered_group-after_upsert folder (ok _) k = refl
  get_registered_group-after_upsert folder (raised e) k = refl

  register-outcome :
      (folder : String)
      → (get_registered_group folder (register sys task h).1.db ≡ get_registered_group folder h.db)
        ⊎ ((requested_folder task ≡ folder)
            × (get_registered_group folder (register sys task h).1.db ≡ some asked))
  register-outcome folder =
      let r = upsert_registered_group asked timed.db in
      let found =
        ap (λ (x : Result (Unit {0}) × Host). get_registered_group folder x.1.db) register-eq
        ∙ get_registered_group-after_upsert folder r.0 (record timed { db = r.1 }) in
      elim (upsert_registered_group-outcome asked timed.db folder) [
        | inl (taken, e) ↦ inl (
            found
            ∙ ap (λ (x : Result (Unit {0}) × Database). get_registered_group folder x.1) e
            ∙ get_registered_group-timed folder)
        | inr (free, done, now) ↦ elim (Bool-cases (requested_folder task == folder)) [
          | inl same ↦ inr ((eq_iff (requested_folder task) folder).0 same, found ∙ now ∙ rw same)
          | inr other ↦ inl (found ∙ now ∙ rw other (get_registered_group-timed folder))
        ]
      ]

-- However a task is handled, the registered group of a folder stays as it was, unless the task is a
-- `register_group` of a registered main group that is complete and names that very folder; then the
-- folder is a safe name, and its group becomes the requested one, which is no main group.
pub handle_ipc_task_safe :
    (sys : System) (task : IpcTaskRequest) (h : Host) (folder : String)
    → (get_registered_group folder (handle_ipc_task sys task h).1.db
        ≡ get_registered_group folder h.db)
      ⊎ (((task.type == "register_group") && source_is_main sys task h) ≡ true)
        × IsGranted task folder (get_registered_group folder (handle_ipc_task sys task h).1.db)
unfolding get_registered_group text_item
handle_ipc_task_safe sys task h folder = elim (Bool-cases (task.type == "register_group")) [
  | inr other ↦ inl (rw (handle_other sys task h other) (unfold emit_trace in refl))
  | inl kind ↦ elim (Bool-cases (source_is_main sys task h)) [
    | inr no_main ↦ inl (rw (handle_rejected sys task h kind no_main) (unfold reject in refl))
    | inl main ↦
        let valid = is_complete task && is_valid_group_folder (requested_folder task) in
        let branch = handle_authorized sys task h kind main in
        let start = checked sys task h in
        elim (Bool-cases valid) [
          | inr bad ↦ inl (rw (branch, bad) (unfold emit_trace in refl))
          | inl good ↦ elim (register-outcome sys task start folder) [
            | inl same ↦ inl (rw (branch, good) (same ∙ unfold emit_trace in refl))
            | inr (named, now) ↦ inr (
              rw (kind, main),
              record {
                complete = ground arith;
                named = named;
                safe = subst IsFolderName named (
                    is_valid_group_folder_stripped (item_text (get_item "folder" task.payload))
                      (ground arith));
                added_at = (asked sys task start).added_at;
                written = rw (branch, good) now;
              },
            )
          ]
        ]
  ]
]
