-- ===== src/Logging/Recent.antt =====
-- What secnano/logger.py keeps of the events that were logged.
use mathlib.Core.List.{append_assoc, append-nil}
use secnano.Prelude.{
  ℕ, suc, ◌-◌, ◌≤◌, String, ◌≡◌, sym, ap, ◌∙◌, Option, List, [], ◌∷◌, ◌++◌, map, arith, length,
  length-drop, last_items, drop, length-last_items,
}
use secnano.Trace.Buffer.{drop-drop, last_items-append, last_items_short}
use secnano.Logging.{
  LoggedItem, RecentEvent, recent_event, capture_recent_event, get_recent_events, max_recent_events,
}

-- A logger's name, and what it logs.
abbrev pub LogCall : Type 0
LogCall = Option String × LoggedItem

abbrev pub event_of : LogCall → RecentEvent
event_of (logger_name, event_dict) = recent_event logger_name event_dict

unfoldable pub capture_all : List LogCall → List RecentEvent → List RecentEvent
capture_all [] recent = recent
capture_all ((logger_name, event_dict) ∷ calls) recent =
    capture_all calls (capture_recent_event logger_name event_dict recent)

capture_all-last_items :
    (calls : List LogCall) (recent : List RecentEvent)
    → length recent ≤ max_recent_events
    → capture_all calls recent ≡ last_items max_recent_events (recent ++ map event_of calls)
unfolding capture_all capture_recent_event
capture_all-last_items [] recent h = sym (
    ap (last_items max_recent_events) (append-nil recent)
    ∙ last_items_short max_recent_events recent h)
capture_all-last_items ((logger_name, event_dict) ∷ calls) recent h =
    let e = recent_event logger_name event_dict in
    capture_all-last_items calls (last_items max_recent_events (recent ++ e ∷ []))
      (length-last_items max_recent_events (recent ++ e ∷ []))
    ∙ last_items-append max_recent_events (recent ++ e ∷ []) (map event_of calls)
    ∙ ap (last_items max_recent_events) (append_assoc recent (e ∷ []) (map event_of calls))

last_items-last_items {ℓ} :
    {A : Type ℓ} (n m : ℕ) (xs : List A) → n ≤ m → last_items n (last_items m xs) ≡ last_items n xs
last_items-last_items n m xs h =
    drop-drop (length (drop (length xs - m) xs) - n) (length xs - m) (length xs - n) xs
      (omega (arith, length-drop (length xs - m) xs))

-- From no events on, a limit from 1 to 200 gives the newest events of all that were logged, as many as
-- the limit, in the order in which they were logged.
pub get_recent_events-capture_all :
    (limit : ℕ) (calls : List LogCall)
    → suc limit ≤ max_recent_events
    → get_recent_events (suc limit) (capture_all calls [])
      ≡ last_items (suc limit) (map event_of calls)
unfolding get_recent_events
get_recent_events-capture_all limit calls h =
    ap (last_items (suc limit)) (capture_all-last_items calls [] (omega arith))
    ∙ last_items-last_items (suc limit) max_recent_events (map event_of calls) h
