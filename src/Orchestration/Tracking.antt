-- ===== src/Orchestration/Tracking.antt =====
-- The flags of a message run of secnano/runtime_orchestration.py against the calls it has made.
use secnano.Prelude.{
  ℕ, ◌+◌, String, ◌≡◌, refl, ap, ◌∙◌, inl, inr, Bool, true, false, not, ◌&&◌, ◌||◌, Option, none,
  some, List, [], ◌∷◌, ◌++◌, if◌then◌else◌, is_empty, is_some, ◌==◌, arith, Bool-cases,
}
use secnano.Types.{RegisteredGroup, AgentOutput}
use secnano.Orchestration.{
  Call, set_typing, close_stdin, notify_idle, Event, on_process, on_output, Flags, reply_text,
  reply_calls, session_calls, clears_typing, typing_calls, close_calls, flags_after,
  confirmed_reply, message_output, message_events,
}

-- How often the sentinel was written and the queue was told that the group is idle, what the last
-- `set_typing` said, and whether the last call told the queue.
pub record Summary : Type 0 where
  pub closes : ℕ
  pub idles : ℕ
  pub typing : Option Bool
  pub ended : Bool

abbrev pub nothing_called : Summary
nothing_called = record { closes = 0; idles = 0; typing = none; ended = false }

abbrev pub after_call : Summary → Call → Summary
after_call s (set_typing jid on) = record s { typing = some on; ended = false }
after_call s (close_stdin jid) = record s { closes = s.closes + 1; ended = false }
after_call s (notify_idle jid) = record s { idles = s.idles + 1; ended = true }
after_call s _ = record s { ended = false }

abbrev pub after_calls : Summary → List Call → Summary
after_calls s [] = s
after_calls s (call ∷ calls) = after_calls (after_call s call) calls

abbrev pub has_output : List Event → Bool
has_output [] = false
has_output (on_process name folder ∷ rest) = has_output rest
has_output (on_output output sends ∷ rest) = true

pub after_calls-append :
    (s : Summary) (xs ys : List Call) → after_calls s (xs ++ ys) ≡ after_calls (after_calls s xs) ys
after_calls-append s [] ys = refl
after_calls-append s (x ∷ xs) ys = after_calls-append (after_call s x) xs ys

-- The flags of a run that turned the typing sign on, if it has a channel, against its calls.
pub record Tracks (has_channel : Bool) (flags : Flags) (s : Summary) : Type 0 where
  pub closes : s.closes ≡ (if flags.close_requested then 1 else 0)
  pub idles : s.idles ≡ 0
  pub typing : s.typing ≡ (if has_channel then some (not flags.typing_cleared) else none)

module _ (has_channel : Bool) (flags : Flags) where
  pub Tracks-reply :
      (jid folder : String) (can_send sends : Bool) (confirmed : List Call)
      (content : Option String) (s : Summary)
      → ((t : Summary)
          → Tracks has_channel flags t
          → Tracks has_channel flags (after_calls t confirmed))
      → Tracks has_channel flags s
      → Tracks has_channel flags
          (after_calls s (reply_calls jid folder can_send sends confirmed content))
  unfolding reply_calls
  Tracks-reply jid folder can_send sends confirmed none s c t = t
  Tracks-reply jid folder false sends confirmed (some content) s c t = t
  Tracks-reply jid folder true false confirmed (some content) s c t = record {
    closes = t.closes;
    idles = t.idles;
    typing = t.typing;
  }
  Tracks-reply jid folder true true confirmed (some content) s c t =
      c (record s { ended = false })
        (record { closes = t.closes; idles = t.idles; typing = t.typing })

  pub Tracks-session :
      (folder : String) (session_id : Option String) (s : Summary)
      → Tracks has_channel flags s
      → Tracks has_channel flags (after_calls s (session_calls folder session_id))
  Tracks-session folder none s t = t
  Tracks-session folder (some session_id) s t = elim (Bool-cases (is_empty session_id)) [
    | inl e ↦ rw e t
    | inr e ↦ rw e (record { closes = t.closes; idles = t.idles; typing = t.typing })
  ]

pub Tracks-typing :
    (jid : String) (has_channel cleared closed wants : Bool) (s : Summary)
    → Tracks has_channel (record { typing_cleared = cleared; close_requested = closed }) s
    → Tracks has_channel
        (record {
          typing_cleared = cleared || has_channel && not cleared && wants;
          close_requested = closed;
        })
        (after_calls s (typing_calls jid (has_channel && not cleared && wants)))
Tracks-typing jid false false closed wants s t = t
Tracks-typing jid false true closed wants s t = t
Tracks-typing jid true true closed wants s t = t
Tracks-typing jid true false closed false s t = t
Tracks-typing jid true false closed true s t = record {
  closes = t.closes;
  idles = t.idles;
  typing = refl;
}

pub Tracks-close :
    (jid : String) (has_channel cleared closed : Bool) (s : Summary)
    → Tracks has_channel (record { typing_cleared = cleared; close_requested = closed }) s
    → Tracks has_channel
        (record { typing_cleared = cleared; close_requested = true })
        (after_calls s (if closed then [] else close_stdin jid ∷ []))
Tracks-close jid has_channel cleared true s t = t
Tracks-close jid has_channel cleared false s t = record {
  closes = ap (λ n. n + 1) t.closes;
  idles = t.idles;
  typing = t.typing;
}

-- The typing sign is cleared with its flag, and the sentinel is written unless it was before.
pub Tracks-end :
    (has_channel : Bool) (jid : String) (output : AgentOutput) (flags : Flags) (s : Summary)
    → Tracks has_channel flags s
    → Tracks has_channel (flags_after has_channel output flags) (
        after_calls s
          (typing_calls jid (clears_typing has_channel output flags) ++ close_calls jid flags))
Tracks-end has_channel jid output flags s t =
    let wants = is_some output.reply_text || output.status == "error" in
    let clears = clears_typing has_channel output flags in
    rw (after_calls-append s (typing_calls jid clears) (close_calls jid flags)) (
      Tracks-close jid has_channel (flags.typing_cleared || clears) flags.close_requested
        (after_calls s (typing_calls jid clears))
        (Tracks-typing jid has_channel flags.typing_cleared flags.close_requested wants s t))

module _ (group : RegisteredGroup) (run_id trace_id : String) (has_channel : Bool) where
  pub Tracks-output :
      (output : AgentOutput) (sends : Bool) (flags : Flags) (s : Summary)
      → Tracks has_channel flags s
      → Tracks has_channel
          (flags_after has_channel output flags)
          (after_calls s (message_output group run_id trace_id has_channel output sends flags).0)
  unfolding message_output
  Tracks-output output sends flags s t =
      let confirmed = confirmed_reply group run_id trace_id has_channel in
      let reply =
        reply_calls group.jid group.folder has_channel sends confirmed
          (reply_text output.reply_text) in
      let kept = session_calls group.folder output.session_id in
      let closing =
        typing_calls group.jid (clears_typing has_channel output flags)
        ++ close_calls group.jid flags in
      let s' : Summary = record s { ended = false } in
      let quiet : Tracks has_channel flags s' = record {
        closes = t.closes;
        idles = t.idles;
        typing = t.typing;
      } in
      rw
        (
          after_calls-append s' reply (kept ++ closing),
          after_calls-append (after_calls s' reply) kept closing,
        )
        (Tracks-end has_channel group.jid output flags _ (
          Tracks-session has_channel flags group.folder output.session_id _ (
            Tracks-reply has_channel flags group.jid group.folder has_channel sends confirmed
              (reply_text output.reply_text) s'
              (λ u q. record { closes = q.closes; idles = q.idles; typing = q.typing }) quiet)))

  pub Tracks-events :
      (events : List Event) (flags : Flags) (s : Summary)
      → Tracks has_channel flags s
      → Tracks has_channel
          (message_events group run_id trace_id has_channel events flags).1
          (after_calls s (message_events group run_id trace_id has_channel events flags).0)
  unfolding message_events
  Tracks-events [] flags s t = t
  Tracks-events (on_process name folder ∷ rest) flags s t =
      Tracks-events rest flags (record s { ended = false })
        (record { closes = t.closes; idles = t.idles; typing = t.typing })
  Tracks-events (on_output output sends ∷ rest) flags s t =
      let first = (message_output group run_id trace_id has_channel output sends flags).0 in
      let next = flags_after has_channel output flags in
      rw (after_calls-append s first (message_events group run_id trace_id has_channel rest next).0)
        (Tracks-events rest next (after_calls s first) (Tracks-output output sends flags s t))

  pub close_requested-events :
      (events : List Event) (flags : Flags)
      → (message_events group run_id trace_id has_channel events flags).1.close_requested
        ≡ (flags.close_requested || has_output events)
  unfolding message_events message_output
  close_requested-events [] flags = ground arith
  close_requested-events (on_process name folder ∷ rest) flags = close_requested-events rest flags
  close_requested-events (on_output output sends ∷ rest) flags =
      close_requested-events rest (flags_after has_channel output flags) ∙ ground arith
