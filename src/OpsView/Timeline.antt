-- ===== src/OpsView/Timeline.antt =====
-- `_build_timeline` of secnano/ops_view.py.
use secnano.Prelude.{
  String, Bool, true, false, ◌&&◌, Option, none, some, List, [], ◌∷◌, ◌++◌, ◌==◌, if◌then◌else◌,
  is_empty, take, any, ◌⧺◌,
}
use secnano.Db.Sort.{sort, descending}
use secnano.OpsView.{
  Value, null_value, text_value, dict_value, Item, get_value, is_truthy, text_of_value, value_or,
  matches_item, is_text,
}

-- An item of the timeline.
pub record TimelineItem : Type 0 where
  pub kind : String
  pub timestamp : Value
  pub title : String
  pub summary : Value
  pub fields : Item

module _ (lower : String → String) where
  -- The token of a member of the selected run, if it is true.
  abbrev pub token_of : Value → List String
  token_of v = if is_truthy v then lower (text_of_value v) ∷ [] else []

  abbrev pub run_tokens : Option Item → List String
  run_tokens none = []
  run_tokens (some run) =
      token_of (get_value "run_id" run)
      ++ (token_of (get_value "trace_id" run)
          ++ (token_of (get_value "jid" run) ++ token_of (get_value "group_folder" run)))

  -- `_build_trace_tokens`; a set there.
  unfoldable pub build_trace_tokens : (query : String) → Option Item → List String
  unfolding get_value
  build_trace_tokens query selected_run =
      run_tokens selected_run ++ (if is_empty query then [] else query ∷ [])

  abbrev pub matches_tokens : List String → Item → Bool
  matches_tokens [] item = true
  matches_tokens (token ∷ tokens) item = any (λ t. matches_item lower t item) (token ∷ tokens)

  abbrev pub formatted : Value → String
  formatted null_value = "None"
  formatted v = text_of_value v

  abbrev pub selected_items : Option Item → List TimelineItem
  selected_items none = []
  selected_items (some run) =
      record {
        kind = "agent_run";
        timestamp = get_value "started_at" run;
        title = "Agent run " ⧺ formatted (get_value "run_id" run);
        summary = value_or (get_value "reply_preview" run) (get_value "status" run);
        fields = run;
      }
      ∷ []

  -- `item.get("run_id") == selected_run.get("run_id")` for texts and `None`
  abbrev pub same_text : Value → Value → Bool
  same_text null_value null_value = true
  same_text (text_value s) w = is_text s w
  same_text v w = false

  abbrev pub is_selected : Option Item → Item → Bool
  is_selected none item = false
  is_selected (some run) item =
      is_truthy (dict_value run) && same_text (get_value "run_id" run) (get_value "run_id" item)

  abbrev pub timeline_item : String → Item → TimelineItem
  timeline_item kind item = record {
    kind = kind;
    timestamp =
        value_or (get_value "timestamp" item)
          (value_or (get_value "run_at" item) (get_value "started_at" item));
    title = text_of_value (
        value_or (get_value "event" item) (
          value_or (get_value "sender" item) (
            value_or (get_value "task_id" item)
              (value_or (get_value "run_id" item) (text_value kind)))));
    summary = value_or (get_value "logger" item) (
        value_or (get_value "status" item)
          (value_or (get_value "content" item) (get_value "reply_preview" item)));
    fields = item;
  }

  -- The items of one collection; the selected run is shown once.
  unfoldable pub collect_items :
      (kind : String) → List String → Option Item → List Item → List TimelineItem
  unfolding get_value matches_item any
  collect_items kind tokens selected_run [] = []
  collect_items kind tokens selected_run (item ∷ items) =
      let rest = collect_items kind tokens selected_run items in
      if (kind == "agent_run") && is_selected selected_run item
      then rest
      else if matches_tokens tokens item
      then timeline_item kind item ∷ rest
      else rest

  -- `str(item.get("timestamp") or "")`
  abbrev pub time_key : TimelineItem → String
  time_key item = text_of_value (value_or item.timestamp (text_value ""))

  -- The timeline before it is sorted and cut.
  unfoldable pub timeline_items :
      (query : String)
      → (selected_run : Option Item)
      → (recent_events recent_messages task_runs agent_runs : List Item) → List TimelineItem
  unfolding build_trace_tokens collect_items ◌⧺◌
  timeline_items query selected_run recent_events recent_messages task_runs agent_runs =
      let tokens = build_trace_tokens query selected_run in
      selected_items selected_run
      ++ (collect_items "event" tokens selected_run recent_events
          ++ (collect_items "message" tokens selected_run recent_messages
              ++ (collect_items "task_run" tokens selected_run task_runs
                  ++ collect_items "agent_run" tokens selected_run agent_runs)))

  -- `_build_timeline`
  unfoldable pub build_timeline :
      (query : String)
      → (selected_run : Option Item)
      → (recent_events recent_messages task_runs agent_runs : List Item) → List TimelineItem
  unfolding timeline_items sort
  build_timeline query selected_run recent_events recent_messages task_runs agent_runs = take 80 (
      sort (descending time_key)
        (timeline_items query selected_run recent_events recent_messages task_runs agent_runs))
