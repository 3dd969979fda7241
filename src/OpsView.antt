-- ===== src/OpsView.antt =====
-- secnano/ops_view.py: what the operator's page shows of the items that the host collects.
pub mod Health
pub mod Graph
pub mod Timeline
pub mod Snapshot
use secnano.Prelude.{
  ℕ, ◌+◌, String, Bool, true, false, not, ◌&&◌, ◌||◌, Option, none, some, List, [], ◌∷◌, ◌++◌, ◌==◌,
  eqb, if◌then◌else◌, ltb, is_some, is_empty, opt_or, strip, length, take, map, select, any, ◌⧺◌,
  show,
}
use secnano.Db.Sort.{sort, descending}
use secnano.AgentTools.Search.{contains}

-- The values that the items hold; an item is a dictionary.
mutual
  pub data Value : Type 0 where
    null_value : Value
    bool_value : Bool → Value
    int_value : ℕ → Value
    -- `- 1 - n`
    negative_value : ℕ → Value
    text_value : String → Value
    dict_value : Item → Value
    list_value : Values → Value

  pub data Item : Type 0 where
    no_members : Item
    member : String → Value → Item → Item

  pub data Values : Type 0 where
    no_values : Values
    value : Value → Values → Values

-- `item.get(key)`
unfoldable pub get_value : String → Item → Value
get_value key no_members = null_value
get_value key (member k v item) = if k == key then v else get_value key item

-- `bool(v)`
abbrev pub is_truthy : Value → Bool
is_truthy null_value = false
is_truthy (bool_value b) = b
is_truthy (int_value n) = not (eqb n 0)
is_truthy (negative_value n) = true
is_truthy (text_value s) = not (is_empty s)
is_truthy (dict_value no_members) = false
is_truthy (dict_value (member k v item)) = true
is_truthy (list_value no_values) = false
is_truthy (list_value (value v vs)) = true

-- `str(v)` of a value that is no dictionary, list or `None`
abbrev pub text_of_value : Value → String
text_of_value (text_value s) = s
text_of_value (int_value n) = show n
text_of_value (negative_value n) = "-" ⧺ show (n + 1)
text_of_value (bool_value true) = "True"
text_of_value (bool_value false) = "False"
text_of_value v = ""

-- `v or w`
abbrev pub value_or : Value → Value → Value
value_or v w = if is_truthy v then v else w

-- `_matches_filter_text`; `lower` is `str.lower`.
unfoldable mutual
  unfolding contains

  pub matches_filter_text : (lower : String → String) → (query : String) → Value → Bool
  matches_filter_text lower query null_value = false
  matches_filter_text lower query (dict_value item) = matches_item lower query item
  matches_filter_text lower query (list_value vs) = matches_values lower query vs
  matches_filter_text lower query (bool_value b) =
      contains query (lower (text_of_value (bool_value b)))
  matches_filter_text lower query (int_value n) =
      contains query (lower (text_of_value (int_value n)))
  matches_filter_text lower query (negative_value n) =
      contains query (lower (text_of_value (negative_value n)))
  matches_filter_text lower query (text_value s) = contains query (lower s)

  pub matches_item : (lower : String → String) → (query : String) → Item → Bool
  matches_item lower query no_members = false
  matches_item lower query (member k v item) =
      matches_filter_text lower query v || matches_item lower query item

  pub matches_values : (lower : String → String) → (query : String) → Values → Bool
  matches_values lower query no_values = false
  matches_values lower query (value v vs) =
      matches_filter_text lower query v || matches_values lower query vs

-- `_filter_items`
unfoldable pub filter_items : (lower : String → String) → List Item → (query : String) → List Item
unfolding matches_item
filter_items lower items query =
    if is_empty query then items else select (matches_item lower query) items

-- `_is_due_iso`: `reached` says of a time that can be read whether it has come.
abbrev pub is_due_iso : (reached : String → Option Bool) → Value → Bool
is_due_iso reached (text_value s) =
    if is_empty s then false else elim (reached s) [ none ↦ false | some b ↦ b ]
is_due_iso reached v = false

abbrev pub is_null : Value → Bool
is_null null_value = true
is_null v = false

abbrev pub is_text : String → Value → Bool
is_text s (text_value t) = t == s
is_text s v = false

-- The number of a value that is a number or a Boolean; a queue's size is one, and not negative.
abbrev pub int_of : Value → ℕ
int_of (int_value n) = n
int_of (bool_value true) = 1
int_of v = 0

unfoldable pub count_items : (Item → Bool) → List Item → ℕ
count_items test items = length (select test items)

abbrev pub is_connected : Item → Bool
is_connected item = is_truthy (get_value "connected" item)

abbrev pub is_active : Item → Bool
is_active item = not (is_null (get_value "pid" item)) && is_null (get_value "returncode" item)

unfoldable pub sum_queued : List Item → ℕ
sum_queued [] = 0
sum_queued (item ∷ items) = int_of (get_value "queue_size" item) + sum_queued items

pub record Metrics : Type 0 where
  pub connected_channels : ℕ
  pub active_agents : ℕ
  pub queued_items : ℕ
  pub due_tasks : ℕ
  pub recent_errors : ℕ

pub record Summary : Type 0 where
  pub health : String
  pub alerts : List String
  pub highlights : List String
  pub metrics : Metrics

unfoldable pub metrics_of :
    (reached : String → Option Bool)
    → (channels queues scheduled_tasks recent_events agent_runs : List Item) → Metrics
unfolding count_items sum_queued
metrics_of reached channels queues scheduled_tasks recent_events agent_runs = record {
  connected_channels = count_items is_connected channels;
  active_agents = count_items is_active queues;
  queued_items = sum_queued queues;
  due_tasks = count_items (λ item. is_due_iso reached (get_value "next_run" item)) scheduled_tasks;
  recent_errors =
      count_items (λ item. is_text "error" (get_value "level" item)) recent_events
      + count_items (λ item. is_text "error" (get_value "status" item)) agent_runs;
}

abbrev pub health_of : Metrics → String
health_of m =
    if eqb m.connected_channels 0 || ltb 0 m.recent_errors
    then "bad"
    else if ltb 0 m.queued_items || ltb 0 m.active_agents || ltb 0 m.due_tasks
    then "warn"
    else "good"

abbrev pub alert_if : Bool → String → List String
alert_if test alert = if test then alert ∷ [] else []

-- All alerts, in the order in which they are added.
unfoldable pub alerts_of : Metrics → List String
unfolding ◌⧺◌ show
alerts_of m =
    alert_if (eqb m.connected_channels 0) "No channels are connected."
    ++ (alert_if (ltb 0 m.queued_items)
          (show m.queued_items ⧺ " queued item(s) are waiting in group queues.")
        ++ (alert_if (ltb 0 m.active_agents)
              (show m.active_agents ⧺ " agent run(s) are active right now.")
            ++ (alert_if (ltb 0 m.due_tasks)
                  (show m.due_tasks ⧺ " scheduled task(s) are already due.")
                ++ alert_if (ltb 0 m.recent_errors)
                    (show m.recent_errors ⧺ " recent error signal(s) need attention."))))

abbrev pub healthy_alert : String
healthy_alert = "System looks healthy from the latest flow signals."

abbrev pub alerts_or : List String → List String
alerts_or [] = healthy_alert ∷ []
alerts_or (alert ∷ alerts) = alert ∷ alerts

-- `_derive_ops_summary`
unfoldable pub derive_ops_summary :
    (reached : String → Option Bool)
    → (channels queues scheduled_tasks recent_events agent_runs : List Item) → Summary
derive_ops_summary reached channels queues scheduled_tasks recent_events agent_runs =
    let m = metrics_of reached channels queues scheduled_tasks recent_events agent_runs in
    record {
      health = health_of m;
      alerts = take 4 (alerts_or (alerts_of m));
      highlights =
          (show m.connected_channels ⧺ " connected channel(s)")
          ∷ (show m.active_agents ⧺ " active agent(s)")
          ∷ (show m.queued_items ⧺ " queued item(s)")
          ∷ (show (length agent_runs) ⧺ " recent agent run(s)")
          ∷ [];
      metrics = m;
    }
