-- ===== src/WebChannel.antt =====
-- secnano/channels/web.py: the chat log of the local web channel, its HTTP interface as a function
-- from requests to responses, and what the orchestrator calls. The HTML pages are arguments.
-- Each function here runs whole; WebChannel/Log.antt has the interleaving of the server's threads.
pub mod Interface
pub mod Log
pub mod Polls
use secnano.Prelude.{
  ℕ, ◌+◌, String, Bool, true, false, not, ◌||◌, Option, none, some, List, [], ◌∷◌, ◌++◌, ◌==◌,
  if◌then◌else◌, ltb, is_empty, str_or, opt_or, strip, select, ◌⧺◌,
}
use secnano.Types.{Json, Message, NewMessage, ChatMetadata}
use secnano.Effect.{Result, ok, raised}
use secnano.JsonValue.{get_item, str_of}

-- An item of `_messages`.
pub record WebMessage : Type 0 where
  pub id : ℕ
  pub role : String
  pub text : String
  pub timestamp : String
  pub author : String

-- `looping` and `serving` say whether `_loop` is set and whether the server's thread is alive.
pub record WebChannel : Type 0 where
  pub chat_jid : String
  pub chat_name : String
  pub messages : List WebMessage
  pub next_message_id : ℕ
  pub typing : Bool
  pub looping : Bool
  pub serving : Bool

abbrev pub new_channel : String → String → WebChannel
new_channel chat_jid chat_name = record {
  chat_jid = chat_jid;
  chat_name = chat_name;
  messages = [];
  next_message_id = 0;
  typing = false;
  looping = false;
  serving = false;
}

-- `_append_message`: `now` is read where there is no timestamp.
unfoldable pub append_message :
    (now role content : String) → (timestamp author : Option String) → WebChannel → WebChannel
append_message now role content timestamp author w = record w {
  next_message_id = w.next_message_id + 1;
  messages =
      w.messages
      ++ (record {
        id = w.next_message_id + 1;
        role = role;
        text = content;
        timestamp = opt_or timestamp now;
        author = opt_or author (if role == "assistant" then "Assistant" else "Web User");
      })
        ∷ [];
}

abbrev pub role_of : Message → String
role_of m = if m.is_from_me || m.is_bot_message then "assistant" else "user"

-- `chat_name` is `_chat_name`.
abbrev pub author_of : String → Message → String
author_of chat_name m =
    if role_of m == "assistant" then chat_name else str_or m.sender_name (str_or m.sender "User")

unfoldable pub append_history : String → List Message → WebChannel → WebChannel
unfolding append_message
append_history now [] w = w
append_history now (m ∷ history) w =
    append_history now history (
      append_message now (role_of m) m.content (some m.timestamp) (some (author_of w.chat_name m))
        w)

abbrev pub has_messages : List WebMessage → Bool
has_messages [] = false
has_messages (m ∷ ms) = true

-- `_seed_history`, once the history is loaded; a loader that raises leaves the log empty.
unfoldable pub seed_history : String → Option (List Message) → WebChannel → WebChannel
unfolding append_history
seed_history now none w = w
seed_history now (some history) w =
    if has_messages w.messages then w else append_history now history w

pub record MessagesPage : Type 0 where
  pub messages : List WebMessage
  pub next_since : ℕ
  pub typing : Bool
  pub chat_jid : String
  pub chat_name : String

-- `_messages_since`
unfoldable pub messages_since : ℕ → WebChannel → MessagesPage
messages_since since w = record {
  messages = select (λ (m : WebMessage). ltb since m.id) w.messages;
  next_since = w.next_message_id;
  typing = w.typing;
  chat_jid = w.chat_jid;
  chat_name = w.chat_name;
}

abbrev inbound_message : String → String → String → WebChannel → NewMessage
inbound_message id now content w = record {
  id = id;
  chat_jid = w.chat_jid;
  sender = "web-user";
  sender_name = "Web User";
  content = content;
  timestamp = now;
  is_from_me = false;
  is_bot_message = false;
}

-- `_dispatch_inbound_message`: the message that is handed to the event loop, with a fresh `id`.
unfoldable pub dispatch_inbound_message :
    (now id content : String) → WebChannel → Result NewMessage × WebChannel
unfolding append_message
dispatch_inbound_message now id content w =
    if w.looping
    then (ok (inbound_message id now content w), append_message now "user" content none none w)
    else (raised "Web channel event loop is not ready", w)

-- `owns_jid`, `send_message` and `set_typing`.
abbrev pub owns_jid : String → WebChannel → Bool
owns_jid jid w = jid == w.chat_jid

unfoldable pub send_message :
    (now jid content : String) → WebChannel → Result (Unit {0}) × WebChannel
unfolding append_message
send_message now jid content w =
    if owns_jid jid w
    then (ok tt, append_message now "assistant" content none none w)
    else (raised "Web channel does not own JID", w)

unfoldable pub set_typing : String → Bool → WebChannel → WebChannel
set_typing jid is_typing w = if owns_jid jid w then record w { typing = is_typing } else w

-- A reply of the server: JSON of a kind, or a text with its status.
pub data Response : Type 0 where
  page_html : String → Response
  messages_json : MessagesPage → Response
  ops_json : (filter_text selected_run_id : String) → Response
  health_json : (jid : String) → Response
  accepted_json : Response
  text_error : (status : ℕ) → String → Response

-- `urlparse(self.path).path`, with the query's values that the handler reads. `since` is the `int` of
-- its first value, `none` if that is no number; a negative one asks for the same as 0.
pub record Query : Type 0 where
  pub path : String
  pub since : Option (Option ℕ)
  pub q : Option String
  pub run : Option String

abbrev since_of : Option (Option ℕ) → ℕ
since_of (some (some n)) = n
since_of _ = 0

-- `do_GET`
unfoldable pub do_get : (page ops_page : WebChannel → String) → Query → WebChannel → Response
unfolding messages_since
do_get page ops_page query w =
    if query.path == "/"
    then page_html (page w)
    else if query.path == "/ops"
    then page_html (ops_page w)
    else if query.path == "/api/messages"
    then messages_json (messages_since (since_of query.since) w)
    else if query.path == "/api/ops"
    then ops_json (opt_or query.q "") (opt_or query.run "")
    else if query.path == "/healthz"
    then health_json w.chat_jid
    else text_error 404 "Not found"

abbrev item_or_empty : Option Json → String
item_or_empty none = ""
item_or_empty (some v) = str_of v

-- The text that is dispatched: `str(data.get("text", "")).strip()`
unfoldable pub posted_text : List (String × Json) → String
unfolding get_item strip
posted_text fields = strip (item_or_empty (get_item "text" fields))

abbrev pub answer_dispatch :
    Result NewMessage × WebChannel → Response × Option NewMessage × WebChannel
answer_dispatch (ok message, w) = (accepted_json, some message, w)
answer_dispatch (raised e, w) = (text_error 500 "Failed to dispatch message", none, w)

abbrev pub answer_post :
    (now id : String)
    → Option (List (String × Json))
    → WebChannel
    → Response × Option NewMessage × WebChannel
unfolding dispatch_inbound_message posted_text
answer_post now id none w = (text_error 400 "Invalid JSON body", none, w)
answer_post now id (some fields) w =
    if is_empty (posted_text fields)
    then (text_error 400 "Message text is required", none, w)
    else answer_dispatch (dispatch_inbound_message now id (posted_text fields) w)

-- `do_POST`, with the message it hands on. `loads` is `json.loads` of a body, `none` for a
-- `JSONDecodeError`; the body of a request without one is `{}`.
unfoldable pub do_post :
    (loads : String → Option (List (String × Json)))
    → (now id path body : String) → WebChannel
    → Response × Option NewMessage × WebChannel
unfolding dispatch_inbound_message posted_text
do_post loads now id path body w =
    if path == "/api/send"
    then answer_post now id (loads body) w
    else (text_error 404 "Not found", none, w)

-- `connect` of a channel that is not connected, when the server starts; and when it does not.
unfoldable pub connect :
    (now : String)
    → Option (List Message)
    → (startup_error : Option String) → WebChannel
    → Result (Option ChatMetadata) × WebChannel
unfolding seed_history
connect now history startup_error w = if w.serving then (ok none, w) else elim startup_error [
  | some e ↦ (raised ("Failed to start web channel: " ⧺ e), record w { looping = true })
  | none ↦ (
    ok (
        some (record {
          chat_jid = w.chat_jid;
          timestamp = now;
          name = some w.chat_name;
          channel = some "web";
          is_group = some true;
        })),
    seed_history now history (record w { looping = true; serving = true }),
  )
]

-- `disconnect`
unfoldable pub disconnect : WebChannel → WebChannel
disconnect w = record w { serving = false }
