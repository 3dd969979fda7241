-- ===== src/OpsView/Health.antt =====
-- The health and the alerts that secnano/ops_view.py shows.
use secnano.Prelude.{
  ◌<◌, String, ◌≡◌, ◌⊎◌, Bool, ◌||◌, Option, List, [], ◌∷◌, eqb, ltb, take, length,
}
use secnano.OpsView.{
  Item, Metrics, Summary, metrics_of, alerts_of, healthy_alert, derive_ops_summary,
}

-- Nothing waits, runs or failed, and some channel is connected.
pub record IsQuiet (m : Metrics) : Type 0 where
  pub connected : 0 < m.connected_channels
  pub agents : m.active_agents ≡ 0
  pub queued : m.queued_items ≡ 0
  pub due : m.due_tasks ≡ 0
  pub errors : m.recent_errors ≡ 0

pub record IsQuietView (s : Summary) : Type 0 where
  pub health : s.health ≡ "good"
  pub alerts : s.alerts ≡ healthy_alert ∷ []

-- What is shown otherwise: `bad` exactly without a channel or with an error, and the first four alerts.
pub record IsBusyView (m : Metrics) (s : Summary) : Type 0 where
  pub bad : (m.connected_channels ≡ 0) ⊎ (0 < m.recent_errors) → s.health ≡ "bad"
  pub warn : 0 < m.connected_channels → m.recent_errors ≡ 0 → s.health ≡ "warn"
  pub alerts : s.alerts ≡ take 4 (alerts_of m)
  pub some_alert : 0 < length s.alerts

is_loud : Metrics → Bool
is_loud m =
    eqb m.connected_channels 0
    || (ltb 0 m.queued_items
        || (ltb 0 m.active_agents || (ltb 0 m.due_tasks || ltb 0 m.recent_errors)))

module _ (reached : String → Option Bool)
    (channels queues scheduled_tasks recent_events agent_runs : List Item) where
  abbrev pub summary : Summary
  summary = derive_ops_summary reached channels queues scheduled_tasks recent_events agent_runs

  abbrev pub metrics : Metrics
  metrics = metrics_of reached channels queues scheduled_tasks recent_events agent_runs
