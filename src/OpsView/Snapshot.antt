-- ===== src/OpsView/Snapshot.antt =====
-- `build_ops_snapshot` of secnano/ops_view.py.
use secnano.Prelude.{String, Bool, Option, none, some, List, [], ◌∷◌, if◌then◌else◌, opt_or, strip}
use mathlib.Core.List.{reverse}
use secnano.OpsView.{Item, get_value, filter_items, is_text, is_null, Summary, derive_ops_summary}
use secnano.OpsView.Graph.{Graph, build_graph_snapshot}
use secnano.OpsView.Timeline.{TimelineItem, build_timeline}

-- The collections that the host hands over.
pub record Collections : Type 0 where
  pub channels : List Item
  pub registered_groups : List Item
  pub queues : List Item
  pub scheduled_tasks : List Item
  pub task_runs : List Item
  pub sessions : List Item
  pub recent_messages : List Item
  pub chats : List Item
  pub recent_events : List Item
  pub agent_runs : List Item

pub record OpsSnapshot : Type 0 where
  pub filter : String
  pub selected_run_id : String
  pub summary : Summary
  pub graph : Graph
  pub visible : Collections
  pub selected_agent_run : Option Item
  pub trace_timeline : List TimelineItem

-- `run.get("run_id") == selected_run_id`, which holds of a run without an id if none is selected.
abbrev pub has_run_id : Option String → Item → Bool
has_run_id none item = is_null (get_value "run_id" item)
has_run_id (some id) item = is_text id (get_value "run_id" item)

-- The first item with the id.
unfoldable pub find_run : Option String → List Item → Option Item
unfolding get_value
find_run selected_run_id [] = none
find_run selected_run_id (run ∷ runs) =
    if has_run_id selected_run_id run then some run else find_run selected_run_id runs

-- `build_ops_snapshot`
unfoldable pub build_ops_snapshot :
    (lower : String → String)
    → (reached : String → Option Bool) → (filter_text selected_run_id : Option String) → Collections
    → OpsSnapshot
unfolding find_run filter_items derive_ops_summary build_graph_snapshot build_timeline strip
build_ops_snapshot lower reached filter_text selected_run_id c =
    let query = lower (strip (opt_or filter_text "")) in
    let selected_run = find_run selected_run_id (reverse c.agent_runs) in
    record {
      filter = opt_or filter_text "";
      selected_run_id = opt_or selected_run_id "";
      summary =
          derive_ops_summary reached c.channels c.queues c.scheduled_tasks c.recent_events
            c.agent_runs;
      graph =
          build_graph_snapshot reached c.channels c.queues c.scheduled_tasks c.recent_messages
            c.recent_events;
      visible = record {
        channels = filter_items lower c.channels query;
        registered_groups = filter_items lower c.registered_groups query;
        queues = filter_items lower c.queues query;
        scheduled_tasks = filter_items lower c.scheduled_tasks query;
        task_runs = filter_items lower c.task_runs query;
        sessions = filter_items lower c.sessions query;
        recent_messages = filter_items lower c.recent_messages query;
        chats = filter_items lower c.chats query;
        recent_events = filter_items lower c.recent_events query;
        agent_runs = filter_items lower c.agent_runs query;
      };
      selected_agent_run = selected_run;
      trace_timeline =
          build_timeline lower query selected_run c.recent_events c.recent_messages c.task_runs
            c.agent_runs;
    }
