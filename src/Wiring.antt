-- ===== src/Wiring.antt =====
-- secnano/main.py: what the host hands to the orchestrator and to ingress, and how it starts.
pub mod MainGroup
pub mod Mentions
pub mod Startup
pub mod Started
pub mod OpsItems
use Prim.Native.Char.{code}
use Prim.Native.String.{[] as end}
use secnano.Prelude.{
  ℕ, ◌+◌, String, Bool, true, false, not, ◌&&◌, ◌||◌, Option, none, some, List, [], ◌∷◌, ◌++◌, ◌==◌,
  eqb, if◌then◌else◌, is_empty, str_or, strip, select, last_items, ◌⧺◌,
}
use secnano.Types.{RegisteredGroup, Session, Message}
use secnano.Effect.{Result, ok, raised}
use secnano.GroupFolder.{contains_code}
use secnano.Db.Database.{Database}
use secnano.Db.Groups.{get_registered_group, list_registered_groups, upsert_registered_group}
use secnano.Db.Chats.{store_chat_metadata}
use secnano.Db.Messages.{insert_message}
use secnano.Db.Sessions.{get_session, upsert_session}
use secnano.Host.{System, Host, ensure_group_dirs, now_utc, uuid4}

-- The constants of secnano/config.py that main.py uses; `data_dir` is the text of the path.
pub record Config : Type 0 where
  pub assistant_name : String
  pub default_main_jid : String
  pub default_main_folder : String
  pub default_main_name : String
  pub data_dir : String

abbrev pub id_of : Option Session → Option String
id_of none = none
id_of (some session) = some session.session_id

-- `_get_session_id`
unfoldable pub get_session_id : String → Database → Option String
unfolding get_session
get_session_id group_folder db = id_of (get_session group_folder db)

-- `_is_legacy_jid_trigger`
abbrev pub starts_at : String → Bool
starts_at String.[] = false
starts_at (String.◌∷◌ c s) = eqb (code c) 64

unfoldable pub is_legacy_jid_trigger : (trigger jid : String) → Bool
unfolding strip contains_code
is_legacy_jid_trigger trigger jid =
    let normalized = strip trigger in
    is_empty normalized
    || (normalized == jid)
    || contains_code 58 normalized
    || (contains_code 64 normalized && not (starts_at normalized))

-- What `re` says of characters: `\w`, and equality under `(?i)`.
pub record Regex : Type 0 where
  pub is_word_char : ℕ → Bool
  pub same_char : ℕ → ℕ → Bool

module _ (re : Regex) where
  abbrev pub first_is_word : String → Bool
  first_is_word String.[] = false
  first_is_word (String.◌∷◌ c s) = re.is_word_char (code c)

  -- `\b` between a character that is one of a word, or is not, and the rest.
  abbrev pub is_boundary : Bool → String → Bool
  is_boundary before_is_word s = if before_is_word then not (first_is_word s) else first_is_word s

  -- The escaped body and `\b`, behind a character.
  unfoldable pub matches_body : (before_is_word : Bool) → (body : String) → String → Bool
  matches_body before_is_word String.[] s = is_boundary before_is_word s
  matches_body before_is_word (String.◌∷◌ c body) String.[] = false
  matches_body before_is_word (String.◌∷◌ c body) (String.◌∷◌ d s) =
      re.same_char (code c) (code d) && matches_body (re.is_word_char (code d)) body s

  -- `(?i)^@?{body}\b`: with the `@` of the text taken, or else without.
  unfoldable pub mentions : (body content : String) → Bool
  unfolding matches_body
  mentions body String.[] = matches_body false body ""
  mentions body (String.◌∷◌ c s) =
      (eqb (code c) 64 && matches_body (re.is_word_char (code c)) body s)
      || matches_body false body (String.◌∷◌ c s)

  abbrev drop_at : String → String
  drop_at String.[] = ""
  drop_at (String.◌∷◌ c s) = if eqb (code c) 64 then s else String.◌∷◌ c s

  abbrev pub needs_trigger : Option Bool → Bool
  needs_trigger none = true
  needs_trigger (some b) = b

  -- `_matches_group_trigger`; `TRIGGER_PATTERN` is the mention of the assistant's name.
  unfoldable pub matches_group_trigger : (assistant_name : String) → RegisteredGroup → String → Bool
  unfolding strip is_legacy_jid_trigger mentions
  matches_group_trigger assistant_name group content =
      let trigger = strip group.trigger in
      if needs_trigger group.requires_trigger
      then (if is_empty trigger || is_legacy_jid_trigger trigger group.jid
          then mentions assistant_name (strip content)
          else mentions (drop_at trigger) (strip content))
      else true

-- `next((group for group in list_registered_groups() if group.is_main), None)`
abbrev pub is_main_of : Option Bool → Bool
is_main_of none = false
is_main_of (some b) = b

unfoldable pub first_main : List RegisteredGroup → Option RegisteredGroup
first_main [] = none
first_main (group ∷ groups) = if is_main_of group.is_main then some group else first_main groups

abbrev pub bootstrap_group : Config → String → Option RegisteredGroup → RegisteredGroup
bootstrap_group config now (some existing) = record existing {
  requires_trigger = some false;
  is_main = some true;
}
bootstrap_group config now none = record {
  jid = config.default_main_jid;
  name = config.default_main_name;
  folder = config.default_main_folder;
  trigger = "@" ⧺ config.assistant_name;
  added_at = now;
  subprocess_config = none;
  requires_trigger = some false;
  is_main = some true;
}

-- `jid.startswith("web:")`
abbrev pub is_web_jid : String → Bool
is_web_jid (String.◌∷◌ a (String.◌∷◌ b (String.◌∷◌ c (String.◌∷◌ d s)))) =
    String.◌∷◌ a (String.◌∷◌ b (String.◌∷◌ c (String.◌∷◌ d ""))) == "web:"
is_web_jid _ = false

module _ (sys : System) (config : Config) where
  -- `_save_session`
  unfoldable pub save_session : (group_folder session_id : String) → Host → Host
  unfolding upsert_session ◌⧺◌
  save_session group_folder session_id h =
      let (now, h') = now_utc sys h in
      record h' {
        db =
            upsert_session
              (record {
                group_folder = group_folder;
                session_id = session_id;
                history_path = config.data_dir ⧺ "/sessions/" ⧺ group_folder ⧺ "/history.json";
                updated_at = now;
              })
              h'.db;
      }

  -- `_store_bot_message`
  unfoldable pub store_bot_message : (chat_jid reply group_folder : String) → Host → Host
  unfolding insert_message
  store_bot_message chat_jid reply group_folder h =
      let (id, h1) = uuid4 sys h in
      let (now, h2) = now_utc sys h1 in
      record h2 {
        db =
            insert_message
              (record {
                id = id;
                chat_jid = chat_jid;
                sender = "bot";
                sender_name = config.assistant_name;
                content = reply;
                timestamp = now;
                is_from_me = true;
                is_bot_message = true;
              })
              h2.db;
      }

  abbrev pub after_bootstrap :
      RegisteredGroup → (now : String) → Result (Unit {0}) → Host → Result RegisteredGroup × Host
  after_bootstrap group now (raised e) h = (raised e, h)
  after_bootstrap group now (ok u) h =
      let made = ensure_group_dirs group.folder h in
      (
        ok group,
        record made {
          db =
              store_chat_metadata group.jid now (some group.name)
                (if is_web_jid group.jid then some "web" else none) (some true) made.db;
        },
      )

  -- The bootstrap where there is no main group.
  unfoldable pub bootstrap : Host → Result RegisteredGroup × Host
  bootstrap h =
      let (now, h') = now_utc sys h in
      let group =
        bootstrap_group config now (get_registered_group config.default_main_folder h'.db) in
      let (result, db) = upsert_registered_group group h'.db in
      after_bootstrap group now result (record h' { db = db })

  abbrev pub bootstrap_unless : Option RegisteredGroup → Host → Result RegisteredGroup × Host
  bootstrap_unless (some existing_main) h =
      (ok existing_main, ensure_group_dirs existing_main.folder h)
  bootstrap_unless none h = bootstrap h

  -- `_ensure_main_bootstrap`
  unfoldable pub ensure_main_bootstrap : Host → Result RegisteredGroup × Host
  ensure_main_bootstrap h = bootstrap_unless (first_main (list_registered_groups h.db)) h

-- `_record_agent_run`, with the summaries of a run as `Run`; the deque has `maxlen=40`.
unfoldable pub record_agent_run {ℓ} : {Run : Type ℓ} → Run → List Run → List Run
record_agent_run summary runs = last_items 40 (runs ++ summary ∷ [])

-- `recover_pending_messages`: the groups for which a run without messages is started.
unfoldable pub recover_pending_messages :
    (has_input : String → Bool) → Database → List RegisteredGroup
unfolding list_registered_groups
recover_pending_messages has_input db =
    select (λ (group : RegisteredGroup). has_input group.folder) (list_registered_groups db)
