-- ===== src/Events.antt =====
-- backend/services/event_service.py: `EventService`. Random ids
-- (`uuid4`) and the moment of a call are arguments; `get_events` takes a blank filter as none, as
-- the code does.
pub mod Laws
pub mod Presence
pub mod Windows
use homesentinel.Prelude.{
  ℕ, Text, text_eq, text_ltb, is_set, Bool, true, false, not, ◌&&◌, ◌||◌, Option, none, some, List,
  [], ◌∷◌, select, count, order_desc, take, drop, length, Action, Outcome, ok, raised, return,
  ◌>>=◌, ◌>>◌, if◌then◌else◌, ◌==◌, Dict, get, put, suc,
}
use homesentinel.Db.Schema.{Event, Alert, Store, Moment, isoformat, current_timestamp}
use homesentinel.Db.Events.{create_event, purge_events, older}
use homesentinel.Db.Alerts.{create_alert_row, dismiss_rows}

-- `record_event`: the INSERT is that of the repository.
unfoldable pub record_event :
    Text → Text → Text → Option Text → Option Text → Moment → Action Store Text
unfolding create_event
record_event event_id device_id event_type description metadata now = do
  create_event event_id device_id event_type description metadata now
  return event_id

pub record Filter : Type 0 where
  pub device_id : Option Text
  pub start_date : Option Text
  pub end_date : Option Text
  pub event_type : Option Text

-- `if x: query += " AND column = ?"`
unfoldable pub equals : Option Text → Text → Bool
equals none column = true
equals (some x) column = not (is_set (some x)) || text_eq column x

-- `timestamp >= ?`
unfoldable pub not_before : Option Text → Text → Bool
not_before none column = true
not_before (some x) column = not (is_set (some x)) || not (text_ltb column x)

-- `timestamp <= ?`
unfoldable pub not_after : Option Text → Text → Bool
not_after none column = true
not_after (some x) column = not (is_set (some x)) || not (text_ltb x column)

unfoldable pub matches : Filter → Event → Bool
unfolding equals not_before not_after
matches f e =
    equals f.device_id e.device_id
    && (equals f.event_type e.event_type
        && (not_before f.start_date e.timestamp && not_after f.end_date e.timestamp))

-- `get_events`
unfoldable pub get_events : Filter → ℕ → ℕ → Store → List Event
unfolding matches
get_events f limit offset s =
    take limit (drop offset (order_desc (λ e. e.timestamp) (select (matches f) s.events)))

-- `get_event_count`
unfoldable pub get_event_count : Filter → Store → ℕ
unfolding matches
get_event_count f s = count (matches f) s.events

-- `create_alert`
unfoldable pub create_alert : Text → Text → Text → Text → Moment → Action Store Text
unfolding create_alert_row
create_alert alert_id device_id event_id alert_type now = do
  create_alert_row alert_id device_id event_id alert_type now
  return alert_id

abbrev pub bool_eq : Bool → Bool → Bool
bool_eq true b = b
bool_eq false b = not b

-- `get_alerts`
unfoldable pub get_alerts : Bool → Option Text → ℕ → ℕ → Store → List Alert
unfolding equals
get_alerts dismissed device_id limit offset s = take limit (
    drop offset (
      order_desc (λ a. a.created_at)
        (select (λ a. bool_eq a.dismissed dismissed && equals device_id a.device_id) s.alerts)))

-- `dismiss_alert`
unfoldable pub dismiss_alert : Text → Moment → Action Store Bool
unfolding dismiss_rows
dismiss_alert alert_id now s = return true (dismiss_rows alert_id now s)

-- `detect_new_device`
unfoldable pub detect_new_device : Text → Store → Bool
detect_new_device device_id s = count (λ e. text_eq e.device_id device_id) s.events == 0

pub record EventStats : Type 0 where
  pub total_events : ℕ
  pub events_by_type : Dict ℕ
  pub active_alerts : ℕ
  pub events_last_24h : ℕ

abbrev pub next_count : Option ℕ → ℕ
next_count none = 1
next_count (some n) = suc n

-- GROUP BY event_type
unfoldable pub count_by_type : List Event → Dict ℕ → Dict ℕ
count_by_type [] d = d
count_by_type (e ∷ es) d = count_by_type es (put e.event_type (next_count (get e.event_type d)) d)

-- `get_event_stats`; `yesterday` is `datetime('now', '-1 day')`.
unfoldable pub get_event_stats : Moment → Store → EventStats
unfolding count_by_type
get_event_stats yesterday s = record {
  total_events = length s.events;
  events_by_type = count_by_type s.events [];
  active_alerts = count (λ a. not a.dismissed) s.alerts;
  events_last_24h = count (λ e. not (text_ltb e.timestamp (current_timestamp yesterday))) s.events;
}

-- `clean_old_events`
unfoldable pub clean_old_events : (ℕ → Moment) → ℕ → Action Store ℕ
unfolding purge_events
clean_old_events ago days s =
    return (count (older (isoformat (ago days))) s.events)
      (purge_events (older (isoformat (ago days))) s)
