-- ===== src/OpsView/Graph.antt =====
-- `_build_graph_snapshot` of secnano/ops_view.py.
use secnano.Prelude.{ℕ, ◌+◌, String, Bool, Option, List, [], ◌∷◌, length, take, ◌⧺◌, show}
use secnano.OpsView.{
  Value, null_value, text_value, dict_value, Item, get_value, text_of_value, value_or, is_due_iso,
  is_connected, is_active, count_items, sum_queued,
}

pub record Node : Type 0 where
  pub id : String
  pub label : String
  pub amount : ℕ

pub record Edge : Type 0 where
  pub id : String
  pub source : String
  pub target : String

pub record Packet : Type 0 where
  pub id : String
  pub timestamp : Value
  pub label : String

pub record Graph : Type 0 where
  pub nodes : List Node
  pub edges : List Edge
  pub packets : List Packet

-- `(event.get("fields") or {}).get("stage")`
abbrev pub stage_of : Value → Value
stage_of (dict_value fields) = get_value "stage" fields
stage_of v = null_value

unfoldable pub packet_of : ℕ → Item → Packet
unfolding get_value ◌⧺◌ show
packet_of index event = record {
  id = "event:" ⧺ show index;
  timestamp = get_value "timestamp" event;
  label = text_of_value (
      value_or (stage_of (get_value "fields" event))
        (value_or (get_value "event" event) (text_value "event")));
}

unfoldable pub packets_from : ℕ → List Item → List Packet
unfolding packet_of
packets_from index [] = []
packets_from index (event ∷ events) = packet_of index event ∷ packets_from (index + 1) events

-- `_build_graph_snapshot`
unfoldable pub build_graph_snapshot :
    (reached : String → Option Bool)
    → (channels queues scheduled_tasks recent_messages recent_events : List Item) → Graph
unfolding count_items sum_queued packets_from
build_graph_snapshot reached channels queues scheduled_tasks recent_messages recent_events =
    record {
      nodes =
          record { id = "channels"; label = "Channels"; amount = count_items is_connected channels }
          ∷ record { id = "messages"; label = "Messages"; amount = length recent_messages }
          ∷ record { id = "queues"; label = "Queues"; amount = sum_queued queues }
          ∷ record { id = "agents"; label = "Agent Runs"; amount = count_items is_active queues }
          ∷ record {
            id = "tasks";
            label = "Scheduled Tasks";
            amount =
                count_items (λ item. is_due_iso reached (get_value "next_run" item))
                  scheduled_tasks;
          }
          ∷ [];
      edges =
          record { id = "channels_to_queue"; source = "channels"; target = "queues" }
          ∷ record { id = "queue_to_agents"; source = "queues"; target = "agents" }
          ∷ record { id = "tasks_to_queue"; source = "tasks"; target = "queues" }
          ∷ [];
      packets = packets_from 0 (take 12 recent_events);
    }
