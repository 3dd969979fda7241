-- ===== src/Handshake/Tasks.antt =====
-- A `register_group` of an agent, from the tool of agent_runner/tools.py over the task file and the
-- watcher of secnano/ipc.py to secnano/control_plane.py.
use mathlib.Core.Path.{subst}
use secnano.Prelude.{
  String, ◌≡◌, refl, ◌⊎◌, inl, inr, Bool, true, false, not, ◌&&◌, ◌||◌, Option, none, some, List,
  ◌∷◌, [], ◌++◌, ◌⧺◌, ◌==◌, is_empty, strip, strip_idem, opt_or, arith, ◌∙◌,
}
use secnano.Types.{Json, IpcTaskRequest, RegisteredGroup}
use secnano.Effect.{Result, ok, raised}
use secnano.JsonValue.{get_item, text_or}
use secnano.GroupFolder.{matches_pattern, is_valid_group_folder}
use secnano.GroupFolder.Stripped.{is_valid_group_folder-pattern}
use secnano.Db.Groups.{get_registered_group, jid_taken, unique_failed}
use secnano.Host.{System, Host}
use secnano.ControlPlane.{
  requested_group, requested_jid, requested_name, requested_folder, requested_trigger, is_complete,
  is_main_group, requires_trigger_of, text_item, store_requested_chat, handle_ipc_task,
}
use secnano.ControlPlane.Authority.{asked, checked, source_is_main}
use secnano.ControlPlane.Registration.{register_group_outcome}
use secnano.Ipc.{task_of, handle_task_file}
use secnano.AgentTools.FileSystem.{FileSystem, done}
use secnano.AgentTools.Requests.{
  AgentEnv, mention_of, request_name, temp_path, final_path, request_fields, request_answer,
  write_task_request, register_group, resolve_tasks_dir,
}

-- The directory can be made, the temporary file in it be written and then be renamed; what was
-- written is then in the file.
pub record IsWritable {Disk : Type 0} (fs : FileSystem Disk) (env : AgentEnv) (tasks_dir : String)
    : Type 0 where
  pub makes : (d : Disk) → (fs.make_directory tasks_dir d).0 ≡ done tt
  pub writes :
      (content : String) (d : Disk)
      → ((fs.write_text (temp_path env tasks_dir) content d).0 ≡ done tt)
        × (fs.text_at
              (temp_path env tasks_dir)
              (fs.write_text (temp_path env tasks_dir) content d).1
            ≡ some content)
  pub renames :
      (content : String) (d : Disk)
      → fs.text_at (temp_path env tasks_dir) d ≡ some content
      → ((fs.rename (temp_path env tasks_dir) (final_path env tasks_dir) d).0 ≡ done tt)
        × (fs.text_at
              (final_path env tasks_dir)
              (fs.rename (temp_path env tasks_dir) (final_path env tasks_dir) d).1
            ≡ some content)

-- The tool's answer is that the request is queued, and the file has the text.
abbrev pub Queued :
    {Disk : Type 0} → FileSystem Disk → AgentEnv → String → String → String × Disk → Type 0
unfolding ◌⧺◌
Queued fs env tasks_dir content (answer, d) =
    (answer ≡ "register_group request queued: " ⧺ request_name env)
    × (fs.text_at (final_path env tasks_dir) d ≡ some content)

-- What the control plane reads of the members, which are stripped once more.
module _ (env : AgentEnv) (jid name folder trigger : String) (requires_trigger : Option Bool) where
  abbrev members : List (String × Json)
  members = request_fields env jid name folder trigger requires_trigger

  read_jid : text_item "jid" members ≡ strip jid
  unfolding text_item
  read_jid = refl

  read_name : text_item "name" members ≡ strip name
  unfolding text_item
  read_name = refl

  read_folder : text_item "folder" members ≡ strip folder
  unfolding text_item
  read_folder = refl

  read_trigger : text_item "trigger" members ≡ strip trigger
  unfolding text_item
  read_trigger = refl

  read_requires_trigger :
      requires_trigger_of (get_item "requires_trigger" members) ≡ requires_trigger
  unfolding get_item requires_trigger_of
  read_requires_trigger = go requires_trigger
    where
      go :
          (b : Option Bool)
          → requires_trigger_of
              (get_item "requires_trigger" (request_fields env jid name folder trigger b))
            ≡ b
      go none = refl
      go (some b) = refl

module _ (env : AgentEnv) (jid name folder : String) (trigger : Option String)
    (requires_trigger : Option Bool) where
  abbrev pub asked_trigger : String
  asked_trigger = strip (opt_or trigger (mention_of env))

  -- The object that `register_group` writes.
  abbrev pub sent : List (String × Json)
  sent = request_fields env (strip jid) (strip name) (strip folder) asked_trigger requires_trigger

  -- The group that it asks for.
  abbrev pub wanted : String → RegisteredGroup
  wanted added_at = record {
    jid = strip jid;
    name = strip name;
    folder = strip folder;
    trigger = asked_trigger;
    added_at = added_at;
    subprocess_config = none;
    requires_trigger = requires_trigger;
    is_main = some false;
  }

  -- No text is empty once it is stripped, and the folder matches the pattern.
  abbrev pub is_sendable : Bool
  is_sendable =
      not (
        is_empty (strip jid)
        || is_empty (strip name)
        || is_empty (strip folder)
        || is_empty asked_trigger)
      && matches_pattern (strip folder)

  module _ (source stem : String) where
    abbrev pub arrived : IpcTaskRequest
    arrived = task_of source stem sent

    arrived_jid : requested_jid arrived ≡ strip jid
    arrived_jid =
        read_jid env (strip jid) (strip name) (strip folder) asked_trigger requires_trigger
        ∙ strip_idem jid

    arrived_name : requested_name arrived ≡ strip name
    arrived_name =
        read_name env (strip jid) (strip name) (strip folder) asked_trigger requires_trigger
        ∙ strip_idem name

    arrived_folder : requested_folder arrived ≡ strip folder
    arrived_folder =
        read_folder env (strip jid) (strip name) (strip folder) asked_trigger requires_trigger
        ∙ strip_idem folder

    arrived_trigger : requested_trigger arrived ≡ asked_trigger
    arrived_trigger =
        read_trigger env (strip jid) (strip name) (strip folder) asked_trigger requires_trigger
        ∙ strip_idem (opt_or trigger (mention_of env))

    arrived-wanted : (added_at : String) → requested_group arrived added_at ≡ wanted added_at
    arrived-wanted added_at =
        rw
          (
            arrived_jid,
            arrived_name,
            arrived_folder,
            arrived_trigger,
            read_requires_trigger env (strip jid) (strip name) (strip folder) asked_trigger
                requires_trigger,
          )
          refl

    arrived_kind : (arrived.type == "register_group") ≡ true
    unfolding text_or
    arrived_kind = refl

    arrived_complete : is_sendable ≡ true → is_complete arrived ≡ true
    unfolding is_complete
    arrived_complete h =
        rw (arrived_jid, arrived_name, arrived_folder, arrived_trigger) (ground (arith, h))

    arrived_good :
        is_sendable ≡ true
        → (strip folder == "global") ≡ false
        → (is_complete arrived && is_valid_group_folder (requested_folder arrived)) ≡ true
    arrived_good h free =
        rw
          (
            arrived_complete h,
            arrived_folder,
            is_valid_group_folder-pattern folder (ground (arith, h)),
            free,
          )
          refl

  register_group-sent :
      {Disk : Type 0} (fs : FileSystem Disk) (dumps : List (String × Json) → String) (d : Disk)
      → is_sendable ≡ true
      → register_group fs dumps env jid name folder trigger requires_trigger d
        ≡ request_answer fs (write_task_request fs dumps env sent d)
  unfolding register_group
  register_group-sent fs dumps d h = ground (arith, h)

write_task_request-Queued :
    {Disk : Type 0} (fs : FileSystem Disk) (env : AgentEnv) (tasks_dir : String)
    (dumps : List (String × Json) → String) (fields : List (String × Json)) (d : Disk)
    → resolve_tasks_dir env ≡ ok tasks_dir
    → IsWritable fs env tasks_dir
    → Queued fs env tasks_dir
        (dumps fields)
        (request_answer fs (write_task_request fs dumps env fields d))
unfolding write_task_request
write_task_request-Queued fs env tasks_dir dumps fields d there writable =
    let made = (fs.make_directory tasks_dir d).1 in
    let (written, holds) = writable.writes (dumps fields) made in
    let (moved, final) =
      writable.renames (dumps fields)
        (fs.write_text (temp_path env tasks_dir) (dumps fields) made).1 holds in
    rw (there, writable.makes d, written, moved) (refl, final)

module _ (sys : System) (sender_allowed : String → Bool)
    (matches_group_trigger : RegisteredGroup → String → Bool)
    (dumps : List (String × Json) → String) (loads : String → Result (List (String × Json))) where
  -- What the host has after the request was handled: the jid belongs to another folder, and the
  -- registered groups are as before, or the folder has the group.
  abbrev pub Registered : Result (Unit {0}) × Host → Host → RegisteredGroup → Type 0
  Registered (result, after) h group =
      (jid_taken group h.db ≡ true)
        × (result ≡ raised unique_failed)
        × (after.db.registered_groups ≡ h.db.registered_groups)
      ⊎ (jid_taken group h.db ≡ false)
        × (result ≡ ok tt)
        × (after.group_dirs ≡ h.group_dirs ++ group.folder ∷ [])
        × (get_registered_group group.folder after.db ≡ some group)

  handle_ipc_task-Registered :
      (task : IpcTaskRequest) (h : Host)
      → (task.type == "register_group") ≡ true
      → source_is_main sys task h ≡ true
      → (is_complete task && is_valid_group_folder (requested_folder task)) ≡ true
      → Registered (handle_ipc_task sys task h) h (asked sys task (checked sys task h))
  handle_ipc_task-Registered task h kind main good =
      elim (register_group_outcome sys task h kind main good) [
        | inl (taken, failed, same, _) ↦ inl (taken, failed, same)
        | inr (free, fine, dirs, now) ↦ inr (free, fine, dirs, now)
      ]

  -- If `json.loads` undoes `json.dumps` on the request, and the tasks directory is configured and can
  -- be written: a call of `register_group` whose texts are not empty once they are stripped and
  -- whose folder matches the pattern and is not `global` answers that the request is queued and
  -- leaves it as the text of a file in that directory; and the watcher's handling of that text for
  -- a folder with a main group either raises the UNIQUE error and keeps the registered groups,
  -- exactly if another folder has the jid, or makes the directories of the folder and registers the
  -- group for it with just the jid, the name, the trigger and the flag of the call.
  pub register_group-Registered :
      {Disk : Type 0} (fs : FileSystem Disk) (env : AgentEnv) (tasks_dir : String)
      (jid name folder : String) (trigger : Option String) (requires_trigger : Option Bool)
      (d : Disk) (h : Host) (source stem : String)
      → resolve_tasks_dir env ≡ ok tasks_dir
      → IsWritable fs env tasks_dir
      → is_sendable env jid name folder trigger requires_trigger ≡ true
      → (strip folder == "global") ≡ false
      → loads (dumps (sent env jid name folder trigger requires_trigger))
        ≡ ok (sent env jid name folder trigger requires_trigger)
      → is_main_group (get_registered_group source h.db) ≡ true
      → (content : String) × Queued fs env tasks_dir content
          (register_group fs dumps env jid name folder trigger requires_trigger d)
        × (added_at : String) × Registered
            (handle_task_file sys sender_allowed matches_group_trigger loads source stem content h)
            h
            (wanted env jid name folder trigger requires_trigger added_at)
  unfolding handle_task_file
  register_group-Registered fs env tasks_dir jid name folder trigger requires_trigger d h source
        stem there writable right free back main =
      let task = arrived env jid name folder trigger requires_trigger source stem in
      let start = checked sys task h in
      let added_at = sys.clock (store_requested_chat sys task start).ticks in
      let fields = sent env jid name folder trigger requires_trigger in
      (
        dumps fields,
        rw (register_group-sent env jid name folder trigger requires_trigger fs dumps d right)
            (write_task_request-Queued fs env tasks_dir dumps fields d there writable),
        added_at,
        rw back (
            subst (Registered (handle_ipc_task sys task h) h)
              (arrived-wanted env jid name folder trigger requires_trigger source stem added_at)
              (handle_ipc_task-Registered task h
                (arrived_kind env jid name folder trigger requires_trigger source stem) main
                (arrived_good env jid name folder trigger requires_trigger source stem right
                  free))),
      )
