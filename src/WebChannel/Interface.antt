-- ===== src/WebChannel/Interface.antt =====
-- The class LocalWebChannel of secnano/channels/web.py as a channel.
use secnano.Prelude.{
  String, ◌≡◌, refl, true, Option, none, some, List, [], ◌∷◌, ◌⧺◌, Bool-cases, inl, inr, arith,
  eq_iff,
}
use secnano.Types.{Message}
use secnano.Effect.{Result, ok, raised}
use secnano.ChannelInterface.{Channel, IsChannel, default_sync_groups}
use secnano.WebChannel.{
  WebChannel, connect, send_message, owns_jid, disconnect, set_typing, append_message, seed_history,
  append_history, role_of, author_of, has_messages,
}

-- Without the chat metadata that `connect` hands to its callback.
abbrev bare : {A : Type 0} → Result A × WebChannel → Result (Unit {0}) × WebChannel
bare (ok a, w) = (ok tt, w)
bare (raised e, w) = (raised e, w)

-- `now` is the time of the calls.
abbrev pub local_web_channel :
    (now : String) → Option (List Message) → (startup_error : Option String) → Channel WebChannel
local_web_channel now history startup_error = record {
  name = "web";
  connect = λ w. bare (connect now history startup_error w);
  send_message = λ jid text w. send_message now jid text w;
  is_connected = λ w. w.serving;
  owns_jid = owns_jid;
  disconnect = λ w. (ok tt, disconnect w);
  set_typing = set_typing;
  sync_groups = default_sync_groups;
}

append_history-serving :
    (now : String) (history : List Message) (w : WebChannel)
    → (append_history now history w).serving ≡ w.serving
unfolding append_history append_message
append_history-serving now [] w = refl
append_history-serving now (m ∷ history) w =
    append_history-serving now history (
      append_message now (role_of m) m.content (some m.timestamp) (some (author_of w.chat_name m))
        w)

seed_history-serving :
    (now : String) (history : Option (List Message)) (w : WebChannel)
    → (seed_history now history w).serving ≡ w.serving
unfolding seed_history
seed_history-serving now none w = refl
seed_history-serving now (some history) w = elim (Bool-cases (has_messages w.messages)) [
  | inl e ↦ rw e refl
  | inr e ↦ rw e (append_history-serving now history w)
]

connect-serving :
    (now : String) (history : Option (List Message)) (startup_error : Option String)
    (w : WebChannel)
    → (bare (connect now history startup_error w)).0 ≡ ok tt
    → (bare (connect now history startup_error w)).1.serving ≡ true
unfolding connect
connect-serving now history none w done = elim (Bool-cases w.serving) [
  | inl e ↦ rw e refl
  | inr e ↦ rw e (seed_history-serving now history (record w { looping = true; serving = true }))
]
connect-serving now history (some error) w done = elim (Bool-cases w.serving) [
  | inl e ↦ rw e refl
  | inr e ↦
      let failed : raised ("Failed to start web channel: " ⧺ error) ≡ ok tt = rw e at done in cc
]

pub local_web_channel-IsChannel :
    (now : String) (history : Option (List Message)) (startup_error : Option String)
    → IsChannel (local_web_channel now history startup_error)
unfolding send_message append_message disconnect
local_web_channel-IsChannel now history startup_error = record {
  sends = λ jid content w owned. rw owned refl;
  owns = λ other jid content w. ground (arith, eq_iff jid w.chat_jid);
  connected = λ w done. connect-serving now history startup_error w done;
  disconnected = λ w. refl;
}
