-- ===== src/Db/Traces.antt =====
-- The table `trace_events` of secnano/db.py. `details_json` is read back as what was written: an
-- empty object is stored as NULL and read as an empty object.
use mathlib.Core.List.{reverse}
use secnano.Prelude.{
  ℕ, String, Option, none, some, List, take, select, ◌==◌, if◌then◌else◌, is_empty,
}
use secnano.Types.{TraceEvent}
use secnano.Db.Table.{insert_or_replace}
use secnano.Db.Sort.{sort, ascending, descending}
use secnano.Db.Database.{Database}

unfoldable pub insert_trace_event : TraceEvent → Database → Database
insert_trace_event event db = record db {
  trace_events = insert_or_replace (λ (e : TraceEvent). e.event_id) event db.trace_events;
}

latest_events : ℕ → Database → List TraceEvent
latest_events limit db =
    reverse (take limit (sort (descending (λ (e : TraceEvent). e.timestamp)) db.trace_events))

events_of : String → ℕ → Database → List TraceEvent
events_of trace_id limit db = take limit (
    sort (ascending (λ (e : TraceEvent). e.timestamp))
      (select (λ (e : TraceEvent). e.trace_id == trace_id) db.trace_events))

-- `if trace_id:`, so an empty id lists the events of every trace.
unfoldable pub list_trace_events : Option String → ℕ → Database → List TraceEvent
unfolding latest_events events_of
list_trace_events none limit db = latest_events limit db
list_trace_events (some trace_id) limit db =
    if is_empty trace_id then latest_events limit db else events_of trace_id limit db
