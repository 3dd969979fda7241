-- ===== src/WebChannel/Log.antt =====
-- The chat log of secnano/channels/web.py only grows, and its ids are its positions.
use mathlib.Core.List.{append_assoc, append-nil}
use secnano.Prelude.{
  ℕ, zero, suc, ◌+◌, ◌-◌, String, ◌≡◌, refl, sym, ap, ◌∙◌, Bool, true, false, Option, none, some,
  List, [], ◌∷◌, ◌++◌, arith, ltb, select, drop, length, length-append, Bool-cases, if-cases, inl,
  inr, ◌==◌, is_empty,
}
use secnano.Types.{Json, Message, NewMessage, ChatMetadata}
use secnano.Effect.{Result}
use secnano.WebChannel.{
  WebMessage, WebChannel, Response, append_message, append_history, seed_history, owns_jid,
  send_message, set_typing, do_post, connect, disconnect, role_of, author_of, has_messages,
  answer_dispatch, dispatch_inbound_message, posted_text, answer_post,
}

-- The ids count on from `k`.
abbrev pub IsNumberedFrom : ℕ → List WebMessage → Type 0
IsNumberedFrom k [] = Unit
IsNumberedFrom k (m ∷ ms) = (m.id ≡ k + 1) × IsNumberedFrom (k + 1) ms

pub record IsNumbered (w : WebChannel) : Type 0 where
  pub ids : IsNumberedFrom 0 w.messages
  pub next : w.next_message_id ≡ length w.messages

IsNumberedFrom-snoc :
    (k : ℕ) (ms : List WebMessage) (m : WebMessage)
    → IsNumberedFrom k ms
    → m.id ≡ k + length ms + 1
    → IsNumberedFrom k (ms ++ m ∷ [])
IsNumberedFrom-snoc k [] m h e = (omega (arith, e), tt)
IsNumberedFrom-snoc k (x ∷ ms) m h e =
    (h.0, IsNumberedFrom-snoc (k + 1) ms m h.1 (omega (arith, e)))

pub select-IsNumberedFrom :
    (gap k since : ℕ) (ms : List WebMessage)
    → since - k ≡ gap
    → IsNumberedFrom k ms
    → select (λ (m : WebMessage). ltb since m.id) ms ≡ drop gap ms
unfolding select
select-IsNumberedFrom zero k since [] e h = refl
select-IsNumberedFrom (suc gap) k since [] e h = refl
select-IsNumberedFrom zero k since (m ∷ ms) e h =
    ground (arith, h.0, select-IsNumberedFrom zero (k + 1) since ms (omega (arith, e)) h.1)
select-IsNumberedFrom (suc gap) k since (m ∷ ms) e h =
    ground (arith, h.0, select-IsNumberedFrom gap (k + 1) since ms (omega (arith, e)) h.1)

-- One piece of the channel's code. The server's threads run beside the event loop, so `_seed_history`
-- may run whole or message by message, between their pieces: `appends` is any one `_append_message`.
pub data ChannelStep : WebChannel → WebChannel → Type 0 where
  posts :
      (loads : String → Option (List (String × Json))) (now id path body : String) (w : WebChannel)
      → ChannelStep w (do_post loads now id path body w).2
  sends :
      (now jid content : String) (w : WebChannel) → ChannelStep w (send_message now jid content w).1
  types :
      (jid : String) (is_typing : Bool) (w : WebChannel)
      → ChannelStep w (set_typing jid is_typing w)
  connects :
      (now : String) (history : Option (List Message)) (startup_error : Option String)
      (w : WebChannel)
      → ChannelStep w (connect now history startup_error w).1
  appends :
      (now role content : String) (timestamp author : Option String) (w : WebChannel)
      → ChannelStep w (append_message now role content timestamp author w)
  disconnects : (w : WebChannel) → ChannelStep w (disconnect w)

-- The log keeps what it has, and stays numbered.
pub record Grows (w w' : WebChannel) : Type 0 where
  pub more : List WebMessage
  pub extended : w'.messages ≡ w.messages ++ more
  pub numbered : IsNumbered w → IsNumbered w'

Grows-same :
    (w w' : WebChannel)
    → w'.messages ≡ w.messages
    → w'.next_message_id ≡ w.next_message_id
    → Grows w w'
Grows-same w w' same next = record {
  more = [];
  extended = same ∙ sym (append-nil w.messages);
  numbered = λ h. record { ids = rw same h.ids; next = next ∙ h.next ∙ ap length (sym same) };
}

Grows-trans : (w w' w'' : WebChannel) → Grows w w' → Grows w' w'' → Grows w w''
Grows-trans w w' w'' g g' = record {
  more = g.more ++ g'.more;
  extended =
      g'.extended ∙ ap (λ l. l ++ g'.more) g.extended ∙ append_assoc w.messages g.more g'.more;
  numbered = λ h. g'.numbered (g.numbered h);
}

append_message-Grows :
    (now role content : String) (timestamp author : Option String) (w : WebChannel)
    → Grows w (append_message now role content timestamp author w)
unfolding append_message
append_message-Grows now role content timestamp author w = record {
  more = _;
  extended = refl;
  numbered = λ h. record {
    ids = IsNumberedFrom-snoc 0 w.messages _ h.ids (omega (arith, h.next));
    next = omega (arith, h.next, length-append w.messages (_ ∷ []));
  };
}

append_history-Grows :
    (now : String) (history : List Message) (w : WebChannel)
    → Grows w (append_history now history w)
unfolding append_history
append_history-Grows now [] w = Grows-same w w refl refl
append_history-Grows now (m ∷ history) w =
    let w' =
      append_message now (role_of m) m.content (some m.timestamp) (some (author_of w.chat_name m))
        w in
    Grows-trans w w' (append_history now history w')
      (append_message-Grows now (role_of m) m.content (some m.timestamp)
        (some (author_of w.chat_name m)) w)
      (append_history-Grows now history w')

seed_history-Grows :
    (now : String) (history : Option (List Message)) (w : WebChannel)
    → Grows w (seed_history now history w)
unfolding seed_history
seed_history-Grows now none w = Grows-same w w refl refl
seed_history-Grows now (some history) w = elim (Bool-cases (has_messages w.messages)) [
  | inl e ↦ rw e (Grows-same w w refl refl)
  | inr e ↦ rw e (append_history-Grows now history w)
]

dispatch-Grows :
    (now id content : String) (w : WebChannel)
    → Grows w (answer_dispatch (dispatch_inbound_message now id content w)).2
unfolding dispatch_inbound_message
dispatch-Grows now id content w =
    if-cases (λ r. Grows w (answer_dispatch r).2) w.looping _ _
      (append_message-Grows now "user" content none none w) (Grows-same w w refl refl)

answer_post-Grows :
    (now id : String) (body : Option (List (String × Json))) (w : WebChannel)
    → Grows w (answer_post now id body w).2
unfolding answer_post
answer_post-Grows now id none w = Grows-same w w refl refl
answer_post-Grows now id (some fields) w =
    if-cases (λ (r : Response × Option NewMessage × WebChannel). Grows w r.2)
      (is_empty (posted_text fields)) _ _ (Grows-same w w refl refl)
      (dispatch-Grows now id (posted_text fields) w)

started-Grows :
    (now : String) (history : Option (List Message)) (w : WebChannel)
    → Grows w (seed_history now history (record w { looping = true; serving = true }))
started-Grows now history w =
    Grows-trans w (record w { looping = true; serving = true }) _
      (Grows-same w (record w { looping = true; serving = true }) refl refl)
      (seed_history-Grows now history (record w { looping = true; serving = true }))

connect-Grows :
    (now : String) (history : Option (List Message)) (startup_error : Option String)
    (w : WebChannel)
    → Grows w (connect now history startup_error w).1
unfolding connect
connect-Grows now history none w =
    if-cases (λ (r : Result (Option ChatMetadata) × WebChannel). Grows w r.1) w.serving _ _
      (Grows-same w w refl refl) (started-Grows now history w)
connect-Grows now history (some e) w =
    if-cases (λ (r : Result (Option ChatMetadata) × WebChannel). Grows w r.1) w.serving _ _
      (Grows-same w w refl refl) (Grows-same w (record w { looping = true }) refl refl)

pub ChannelStep-Grows : {w w' : WebChannel} → ChannelStep w w' → Grows w w'
unfolding do_post send_message set_typing disconnect
ChannelStep-Grows (posts loads now id path body w) =
    if-cases (λ (r : Response × Option NewMessage × WebChannel). Grows w r.2) (path == "/api/send")
      _ _ (answer_post-Grows now id (loads body) w) (Grows-same w w refl refl)
ChannelStep-Grows (sends now jid content w) =
    if-cases (λ (r : Result (Unit {0}) × WebChannel). Grows w r.1) (owns_jid jid w) _ _
      (append_message-Grows now "assistant" content none none w) (Grows-same w w refl refl)
ChannelStep-Grows (types jid is_typing w) =
    if-cases (Grows w) (owns_jid jid w) _ _
      (Grows-same w (record w { typing = is_typing }) refl refl) (Grows-same w w refl refl)
ChannelStep-Grows (connects now history startup_error w) = connect-Grows now history startup_error w
ChannelStep-Grows (appends now role content timestamp author w) =
    append_message-Grows now role content timestamp author w
ChannelStep-Grows (disconnects w) = Grows-same w (record w { serving = false }) refl refl
