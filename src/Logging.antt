-- ===== src/Logging.antt =====
-- secnano/logger.py: the recent events that the operator's page shows. The configuration of structlog
-- and the handler for other loggers only call that library.
pub mod Recent
use secnano.Prelude.{
  ℕ, zero, suc, String, Bool, Option, none, some, List, [], ◌∷◌, ◌++◌, ◌||◌, ◌==◌, if◌then◌else◌,
  last_items, opt_or,
}
use secnano.OpsView.{
  Value, null_value, bool_value, int_value, negative_value, text_value, dict_value, list_value,
  Item, no_members, member, Values, no_values, value,
}

-- A value that is logged: `sequence` is a list, a tuple or a set, and `object` another value with its `str`.
-- The keys of dictionaries are texts, and floats are left out.
mutual
  pub data Logged : Type 0 where
    plain_none : Logged
    plain_bool : Bool → Logged
    plain_int : ℕ → Logged
    -- `- 1 - n`
    plain_negative : ℕ → Logged
    plain_text : String → Logged
    dictionary : LoggedItem → Logged
    sequence : LoggedValues → Logged
    object : (text : String) → Logged

  pub data LoggedItem : Type 0 where
    no_entries : LoggedItem
    entry : (key : String) → Logged → LoggedItem → LoggedItem

  pub data LoggedValues : Type 0 where
    no_elements : LoggedValues
    element : Logged → LoggedValues → LoggedValues

unfoldable mutual
  -- `_sanitize`
  pub sanitize : Logged → Value
  sanitize plain_none = null_value
  sanitize (plain_bool b) = bool_value b
  sanitize (plain_int n) = int_value n
  sanitize (plain_negative n) = negative_value n
  sanitize (plain_text s) = text_value s
  sanitize (dictionary entries) = dict_value (sanitize_entries entries)
  sanitize (sequence elements) = list_value (sanitize_elements elements)
  sanitize (object text) = text_value text

  pub sanitize_entries : LoggedItem → Item
  sanitize_entries no_entries = no_members
  sanitize_entries (entry key v rest) = member key (sanitize v) (sanitize_entries rest)

  pub sanitize_elements : LoggedValues → Values
  sanitize_elements no_elements = no_values
  sanitize_elements (element v rest) = value (sanitize v) (sanitize_elements rest)

pub record RecentEvent : Type 0 where
  pub timestamp : Option Logged
  pub level : Option Logged
  pub logger : String
  pub event : Option Logged
  pub fields : Item

-- `event_dict.get(key)`
unfoldable pub get_logged : String → LoggedItem → Option Logged
get_logged key no_entries = none
get_logged key (entry k v rest) = if k == key then some v else get_logged key rest

-- The entries with other keys, sanitized.
unfoldable pub other_fields : LoggedItem → Item
unfolding sanitize
other_fields no_entries = no_members
other_fields (entry key v rest) =
    let others = other_fields rest in
    if key == "timestamp" || key == "level" || key == "event"
    then others
    else member key (sanitize v) others

abbrev pub recent_event : (logger_name : Option String) → LoggedItem → RecentEvent
recent_event logger_name event_dict = record {
  timestamp = get_logged "timestamp" event_dict;
  level = get_logged "level" event_dict;
  logger = opt_or logger_name "secnano";
  event = get_logged "event" event_dict;
  fields = other_fields event_dict;
}

abbrev pub max_recent_events : ℕ
max_recent_events = 200

-- `_capture_recent_event`; the deque drops its oldest event when it is full.
unfoldable pub capture_recent_event :
    (logger_name : Option String) → LoggedItem → List RecentEvent → List RecentEvent
capture_recent_event logger_name event_dict recent =
    last_items max_recent_events (recent ++ recent_event logger_name event_dict ∷ [])

-- `get_recent_events`, where 0 stands for every limit that is not positive.
unfoldable pub get_recent_events : (limit : ℕ) → List RecentEvent → List RecentEvent
get_recent_events zero recent = []
get_recent_events (suc n) recent = last_items (suc n) recent
