-- ===== src/Ipc/Tasks.antt =====
-- What a round of secnano/ipc.py may do to the registered groups.
use secnano.Prelude.{
  String, ◌≡◌, refl, ap, inl, inr, true, Bool, ◌==◌, ◌&&◌, any, eq_iff, sym, ◌∙◌, List, [], ◌∷◌,
  is_empty, Bool-cases, arith,
}
use secnano.Types.{Json, IpcTaskRequest, RegisteredGroup, ChatMetadata}
use secnano.Effect.{Result, ok, raised}
use secnano.Db.Sort.{sort, ascending, any-sort}
use secnano.Ipc.Changes.{
  IsSafeChange, has_task_file, IsSafeChange-same, IsSafeChange-trans, IsSafeChange-groups,
}
use secnano.Host.{System, Host}
use secnano.ControlPlane.{handle_ipc_task, is_main_group}
use secnano.ControlPlane.Authority.{handle_ipc_task_safe}
use secnano.Ingress.{handle_chat_metadata, handle_new_message}
use secnano.JsonValue.{text_field}
use secnano.Ingress.Routing.{handle_new_message-groups}
use secnano.Ipc.{
  GroupIpc, is_polled, metadata_of, message_of, task_of, handle_message_file, handle_metadata_file,
  handle_task_file, poll_directory, poll_folder, poll_folders, poll_round, dispatch_message,
  dispatch_metadata, dispatch_task,
}
use secnano.Ipc.Polling.{poll_directory-keeps}

module _ (Known : String → Type 0) (sys : System) where
  handle_ipc_task-IsSafeChange :
      (task : IpcTaskRequest) (h : Host)
      → Known task.source_group
      → IsSafeChange Known h (handle_ipc_task sys task h).1
  handle_ipc_task-IsSafeChange task h known folder = elim (handle_ipc_task_safe sys task h folder) [
    | inl same ↦ inl same
    | inr (right, granted) ↦ inr (
      granted.safe,
      ap is_main_group granted.written,
      (task.source_group, known, ground (arith, right)),
    )
  ]

  handle_chat_metadata-IsSafeChange :
      (metadata : ChatMetadata) (h : Host)
      → IsSafeChange Known h (handle_chat_metadata sys metadata h)
  unfolding handle_chat_metadata
  handle_chat_metadata-IsSafeChange metadata h = elim (Bool-cases (is_empty metadata.chat_jid)) [
    | inl e ↦ IsSafeChange-groups Known h (handle_chat_metadata sys metadata h) (rw e refl)
    | inr e ↦ IsSafeChange-groups Known h (handle_chat_metadata sys metadata h) (rw e refl)
  ]

module _ (Known : String → Type 0) (sys : System) (sender_allowed : String → Bool)
    (matches_group_trigger : RegisteredGroup → String → Bool)
    (loads : String → Result (List (String × Json))) where
  message_file-IsSafeChange :
      (stem content : String) (h : Host)
      → IsSafeChange Known h
          (handle_message_file sys sender_allowed matches_group_trigger loads stem content h).1
  unfolding handle_message_file
  message_file-IsSafeChange stem content h = go (loads content)
    where
      go :
          (parsed : Result (List (String × Json)))
          → IsSafeChange Known h
              (dispatch_message sys sender_allowed matches_group_trigger loads stem parsed h).1
      go (raised e) = IsSafeChange-same Known h
      go (ok fields) = elim (Bool-cases (text_field "type" "" fields == "chat_metadata")) [
        | inl e ↦ rw e (handle_chat_metadata-IsSafeChange Known sys (metadata_of fields) h)
        | inr e ↦ rw e (
            IsSafeChange-groups Known h
              (handle_new_message sys sender_allowed matches_group_trigger (message_of stem fields)
                h)
              (handle_new_message-groups sys sender_allowed matches_group_trigger
                (message_of stem fields) h))
      ]

  metadata_file-IsSafeChange :
      (stem content : String) (h : Host)
      → IsSafeChange Known h
          (handle_metadata_file sys sender_allowed matches_group_trigger loads stem content h).1
  unfolding handle_metadata_file
  metadata_file-IsSafeChange stem content h = go (loads content)
    where
      go :
          (parsed : Result (List (String × Json)))
          → IsSafeChange Known h
              (dispatch_metadata sys sender_allowed matches_group_trigger loads parsed h).1
      go (raised e) = IsSafeChange-same Known h
      go (ok fields) = handle_chat_metadata-IsSafeChange Known sys (metadata_of fields) h

  task_file-IsSafeChange :
      (folder stem content : String) (h : Host)
      → Known folder
      → IsSafeChange Known h
          (handle_task_file sys sender_allowed matches_group_trigger loads folder stem content h).1
  unfolding handle_task_file
  task_file-IsSafeChange folder stem content h known = go (loads content)
    where
      go :
          (parsed : Result (List (String × Json)))
          → IsSafeChange Known h
              (dispatch_task sys sender_allowed matches_group_trigger loads folder stem parsed h).1
      go (raised e) = IsSafeChange-same Known h
      go (ok fields) = handle_ipc_task-IsSafeChange Known sys (task_of folder stem fields) h known

  poll_folder-IsSafeChange :
      (folder : String) (dirs : GroupIpc) (h : Host)
      → (any is_polled dirs.tasks ≡ true → Known folder)
      → IsSafeChange Known h
          (poll_folder sys sender_allowed matches_group_trigger loads folder dirs h).1
  unfolding poll_folder
  poll_folder-IsSafeChange folder dirs h known =
      let on_message = handle_message_file sys sender_allowed matches_group_trigger loads in
      let on_task = handle_task_file sys sender_allowed matches_group_trigger loads folder in
      let on_metadata = handle_metadata_file sys sender_allowed matches_group_trigger loads in
      let h1 = (poll_directory on_message dirs.messages h).1 in
      let h2 = (poll_directory on_task dirs.tasks h1).1 in
      let h3 = (poll_directory on_metadata dirs.chat_metadata h2).1 in
      IsSafeChange-trans Known h h1 h3
        (poll_directory-keeps on_message (IsSafeChange Known) (IsSafeChange-same Known)
          (IsSafeChange-trans Known) dirs.messages h (λ has. message_file-IsSafeChange))
        (IsSafeChange-trans Known h1 h2 h3
          (poll_directory-keeps on_task (IsSafeChange Known) (IsSafeChange-same Known)
            (IsSafeChange-trans Known) dirs.tasks h1
            (λ has stem content s. task_file-IsSafeChange folder stem content s (known has)))
          (poll_directory-keeps on_metadata (IsSafeChange Known) (IsSafeChange-same Known)
            (IsSafeChange-trans Known) dirs.chat_metadata h2 (λ has. metadata_file-IsSafeChange)))

  poll_folders-IsSafeChange :
      (ipc : List (String × GroupIpc)) (h : Host)
      → ((folder : String) → has_task_file folder ipc ≡ true → Known folder)
      → IsSafeChange Known h (poll_folders sys sender_allowed matches_group_trigger loads ipc h).1
  unfolding poll_folders has_task_file any
  poll_folders-IsSafeChange [] h known = IsSafeChange-same Known h
  poll_folders-IsSafeChange ((folder, dirs) ∷ rest) h known =
      let h1 = (poll_folder sys sender_allowed matches_group_trigger loads folder dirs h).1 in
      IsSafeChange-trans Known h h1
        (poll_folders sys sender_allowed matches_group_trigger loads rest h1).1
        (poll_folder-IsSafeChange folder dirs h
          (λ has. known folder (ground (arith, has, eq_iff folder folder))))
        (poll_folders-IsSafeChange rest h1 (λ name has. known name (ground (arith, has))))

module _ (sys : System) (sender_allowed : String → Bool)
    (matches_group_trigger : RegisteredGroup → String → Bool)
    (loads : String → Result (List (String × Json))) where
  -- A round of the watcher over any files in the folders of any groups keeps the registered group of
  -- every folder; or the folder's name is safe, its new group is no main group, and one of the folders
  -- whose `tasks` directory has a file that the round handles had a main group before the round. So
  -- no file that a process leaves makes a main group, and without a file from a main group nothing
  -- is registered.
  pub poll_round-IsSafeChange :
      (ipc : List (String × GroupIpc)) (h : Host)
      → IsSafeChange
          (λ folder. has_task_file folder ipc ≡ true)
          h
          (poll_round sys sender_allowed matches_group_trigger loads ipc h).1
  unfolding poll_round has_task_file
  poll_round-IsSafeChange ipc h =
      let by_name = ascending (λ (e : String × GroupIpc). e.0) in
      poll_folders-IsSafeChange (λ folder. has_task_file folder ipc ≡ true) sys sender_allowed
        matches_group_trigger loads (sort by_name ipc) h
        (λ folder has.
          sym (
            any-sort (λ (e : String × GroupIpc). (e.0 == folder) && any is_polled e.1.tasks) by_name
              ipc)
          ∙ has)
