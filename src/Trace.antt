-- ===== src/Trace.antt =====
-- secnano/trace.py: the bounded buffer of recent trace events. `record` also inserts the event into
-- the database; that half is in `Host.emit_trace`.
pub mod Buffer
use secnano.Prelude.{
  ℕ, zero, suc, Option, none, some, List, [], ◌∷◌, ◌++◌, length, last_items, leb, if◌then◌else◌,
}
use secnano.Types.{TraceEvent}

pub record TraceStore : Type 0 where
  pub recent : List TraceEvent
  pub maxlen : ℕ

-- `deque(maxlen=n).append`
unfoldable pub append_recent : TraceEvent → TraceStore → TraceStore
append_recent event store = record store {
  recent = last_items store.maxlen (store.recent ++ event ∷ []);
}

-- `events[-limit:]`, for a limit that is not negative: `[-0:]` is the whole list.
unfoldable pub from_end : ℕ → List TraceEvent → List TraceEvent
from_end zero events = events
from_end (suc n) events = last_items (suc n) events

unfoldable pub list_recent : Option ℕ → TraceStore → List TraceEvent
unfolding from_end
list_recent none store = store.recent
list_recent (some limit) store =
    if leb (length store.recent) limit then store.recent else from_end limit store.recent
