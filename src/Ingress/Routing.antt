-- ===== src/Ingress/Routing.antt =====
-- Which messages secnano/ingress.py stores, and which of them start a run of a group.
use mathlib.Core.Path.{ap₂}
use secnano.ControlPlane.Authority.{SameButTrace}
use secnano.Prelude.{
  ◌+◌, String, ◌≡◌, refl, sym, ◌∙◌, inl, inr, Bool, true, false, not, ◌&&◌, ◌||◌, Option, none,
  some, List, [], ◌∷◌, ◌++◌, if◌then◌else◌, is_empty, map, Bool-cases,
}
use mathlib.Core.List.{append-nil, map-append}
use secnano.Types.{NewMessage, Message, RegisteredGroup}
use secnano.Db.Groups.{get_registered_group_by_jid}
use secnano.Host.{System, Host, Job, process_messages, Enqueued, emit_trace}
use secnano.Ingress.{
  route_message, receive_message, handle_new_message, store_message, received_trace, message_trace,
}

-- What an enqueued call runs, and for which group; the task id is a fresh UUID.
abbrev pub run_of : Enqueued → String × Job
run_of e = (e.group_jid, e.job)

abbrev pub message_key : Message → String
message_key m = m.id

module _ (sys : System) (sender_allowed : String → Bool)
    (matches_group_trigger : RegisteredGroup → String → Bool) where
  -- The message comes from somebody else, who is on the allowlist.
  abbrev pub is_accepted : NewMessage → Bool
  is_accepted m = not (m.is_bot_message || m.is_from_me) && sender_allowed m.sender

  -- The runs that a stored message starts: one, if its chat is a registered group whose trigger it
  -- matches.
  abbrev pub runs_for : String → NewMessage → Option RegisteredGroup → List (String × Job)
  runs_for trace_id m none = []
  runs_for trace_id m (some g) =
      if matches_group_trigger g m.content
      then (m.chat_jid, process_messages g trace_id) ∷ []
      else []

  abbrev pub trace_id_of : NewMessage → Host → String
  trace_id_of m h = if is_empty m.id then sys.uuid h.uuids else m.id

  route_message-enqueued :
      (trace_id : String) (m : NewMessage) (matched : Option RegisteredGroup) (h : Host)
      → map run_of
          (route_message sys sender_allowed matches_group_trigger trace_id m matched h).enqueued
        ≡ map run_of h.enqueued ++ runs_for trace_id m matched
  unfolding route_message
  route_message-enqueued trace_id m none h = sym (append-nil (map run_of h.enqueued))
  route_message-enqueued trace_id m (some g) h =
      elim (Bool-cases (matches_group_trigger g m.content)) [
        | inl hit ↦ rw hit (map-append run_of h.enqueued _)
        | inr miss ↦ rw miss (sym (append-nil (map run_of h.enqueued)))
      ]

  abbrev received : String → NewMessage → Host → Host
  received trace_id m h =
      emit_trace sys (received_trace sys sender_allowed matches_group_trigger trace_id m) h

  abbrev stored : String → NewMessage → Host → Host
  stored trace_id m h =
      emit_trace sys
        (message_trace sys sender_allowed matches_group_trigger trace_id "message.stored" "success"
          m)
        (store_message sys sender_allowed matches_group_trigger m (received trace_id m h))

  receive_message-eq :
      (trace_id : String) (m : NewMessage) (h : Host)
      → receive_message sys sender_allowed matches_group_trigger trace_id m h ≡ (
          if is_accepted m
          then route_message sys sender_allowed matches_group_trigger trace_id m
              (get_registered_group_by_jid m.chat_jid (stored trace_id m h).db)
              (stored trace_id m h)
          else received trace_id m h)
  unfolding receive_message
  receive_message-eq trace_id m h = elim (Bool-cases (m.is_bot_message || m.is_from_me)) [
    | inl own ↦ rw own refl
    | inr other ↦ rw other (elim (Bool-cases (sender_allowed m.sender)) [
      | inl allowed ↦ rw allowed refl
      | inr refused ↦ rw refused refl
    ])
  ]

  stored-groups :
      (trace_id : String) (m : NewMessage) (h : Host)
      → (get_registered_group_by_jid m.chat_jid (stored trace_id m h).db
          ≡ get_registered_group_by_jid m.chat_jid h.db)
        × ((stored trace_id m h).enqueued ≡ h.enqueued)
  unfolding emit_trace store_message get_registered_group_by_jid
  stored-groups trace_id m h = (refl, refl)

  receive_message-enqueued :
      (trace_id : String) (m : NewMessage) (h : Host)
      → map run_of (receive_message sys sender_allowed matches_group_trigger trace_id m h).enqueued
        ≡ map run_of h.enqueued
          ++ (if is_accepted m
              then runs_for trace_id m (get_registered_group_by_jid m.chat_jid h.db)
              else [])
  receive_message-enqueued trace_id m h =
      let matched = get_registered_group_by_jid m.chat_jid (stored trace_id m h).db in
      let (same_group, same_queue) = stored-groups trace_id m h in
      rw (receive_message-eq trace_id m h) (elim (Bool-cases (is_accepted m)) [
        | inl yes_ ↦ rw yes_ (
            route_message-enqueued trace_id m matched (stored trace_id m h)
            ∙ ap₂ (λ q g. map run_of q ++ runs_for trace_id m g) same_queue same_group)
        | inr no_ ↦ rw no_ (unfold emit_trace in sym (append-nil (map run_of h.enqueued)))
      ])

  handle_unnamed :
      (m : NewMessage) (h : Host)
      → is_empty m.id ≡ true
      → handle_new_message sys sender_allowed matches_group_trigger m h
        ≡ receive_message sys sender_allowed matches_group_trigger
            (sys.uuid h.uuids)
            m
            (record h { uuids = h.uuids + 1 })
  unfolding handle_new_message
  handle_unnamed m h unnamed = rw unnamed refl

  handle_named :
      (m : NewMessage) (h : Host)
      → is_empty m.id ≡ false
      → handle_new_message sys sender_allowed matches_group_trigger m h
        ≡ receive_message sys sender_allowed matches_group_trigger m.id m h
  unfolding handle_new_message
  handle_named m h named = rw named refl

  -- A new message starts at most one run, and starts it exactly if it is accepted, its chat is a
  -- registered group, and it matches the group's trigger: a run of that group, queued for the
  -- message's chat, under the message's id as its trace, or a fresh one.
  pub handle_new_message-enqueued :
      (m : NewMessage) (h : Host)
      → map run_of (handle_new_message sys sender_allowed matches_group_trigger m h).enqueued
        ≡ map run_of h.enqueued
          ++ (if is_accepted m
              then runs_for (trace_id_of m h) m (get_registered_group_by_jid m.chat_jid h.db)
              else [])
  unfolding handle_new_message
  handle_new_message-enqueued m h = elim (Bool-cases (is_empty m.id)) [
    | inl unnamed ↦
        rw unnamed
          (receive_message-enqueued (sys.uuid h.uuids) m (record h { uuids = h.uuids + 1 }))
    | inr named ↦ rw named (receive_message-enqueued m.id m h)
  ]

  -- A message of the bot, of the host itself or of a sender who is not allowed is not stored: chats,
  -- messages and groups stay as they were, and nothing is enqueued.
  pub handle_new_message_refused :
      (m : NewMessage) (h : Host)
      → is_accepted m ≡ false
      → SameButTrace h (handle_new_message sys sender_allowed matches_group_trigger m h)
  handle_new_message_refused m h no_ = elim (Bool-cases (is_empty m.id)) [
    | inl unnamed ↦ rw (handle_unnamed m h unnamed) (
        rw (receive_message-eq (sys.uuid h.uuids) m (record h { uuids = h.uuids + 1 }), no_)
          (unfold emit_trace in record { db = refl; group_dirs = refl; enqueued = refl }))
    | inr named ↦ rw (handle_named m h named) (
        rw (receive_message-eq m.id m h, no_)
          (unfold emit_trace in record { db = refl; group_dirs = refl; enqueued = refl }))
  ]

  route_message-groups :
      (trace_id : String) (m : NewMessage) (matched : Option RegisteredGroup) (h : Host)
      → (route_message sys sender_allowed matches_group_trigger trace_id m matched
          h).db.registered_groups
        ≡ h.db.registered_groups
  unfolding route_message
  route_message-groups trace_id m none h = refl
  route_message-groups trace_id m (some g) h =
      elim (Bool-cases (matches_group_trigger g m.content)) [
        | inl hit ↦ rw hit refl
        | inr miss ↦ rw miss refl
      ]

  receive_message-groups :
      (trace_id : String) (m : NewMessage) (h : Host)
      → (receive_message sys sender_allowed matches_group_trigger trace_id m h).db.registered_groups
        ≡ h.db.registered_groups
  receive_message-groups trace_id m h =
      let matched = get_registered_group_by_jid m.chat_jid (stored trace_id m h).db in
      rw (receive_message-eq trace_id m h) (elim (Bool-cases (is_accepted m)) [
        | inl yes_ ↦ rw yes_ (
            route_message-groups trace_id m matched (stored trace_id m h)
            ∙ unfold emit_trace store_message in refl)
        | inr no_ ↦ rw no_ (unfold emit_trace in refl)
      ])

  -- No message changes the registered groups.
  pub handle_new_message-groups :
      (m : NewMessage) (h : Host)
      → (handle_new_message sys sender_allowed matches_group_trigger m h).db.registered_groups
        ≡ h.db.registered_groups
  handle_new_message-groups m h = elim (Bool-cases (is_empty m.id)) [
    | inl unnamed ↦
        rw (handle_unnamed m h unnamed)
          (receive_message-groups (sys.uuid h.uuids) m (record h { uuids = h.uuids + 1 }))
    | inr named ↦ rw (handle_named m h named) (receive_message-groups m.id m h)
  ]
