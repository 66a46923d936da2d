-- ===== src/Db/Events.antt =====
-- backend/db.py, `DeviceEventRepository`.
use homesentinel.Prelude.{
  ℕ, Text, text_eq, text_ltb, Bool, true, not, ◌||◌, Option, List, [], ◌∷◌, ◌++◌, any, select,
  delete, count, find, order_desc, take, drop, Action, integrity_error, return, raise,
  if◌then◌else◌,
}
use homesentinel.Db.Schema.{
  Event, Store, Moment, isoformat, current_timestamp, has_id, is_event, event_type_allowed,
}
use homesentinel.Db.Devices.{loses_event}

-- The constraints refuse the row: an id that is taken, no such device, an unknown type.
unfoldable pub refuses_event : Text → Text → Text → Store → Bool
unfolding event_type_allowed
refuses_event event_id device_id event_type s =
    any (is_event event_id) s.events
    || (not (any (has_id device_id) s.devices) || not (event_type_allowed event_type))

-- `create`
unfoldable pub create_event :
    Text → Text → Text → Option Text → Option Text → Moment → Action Store Bool
unfolding refuses_event
create_event event_id device_id event_type description metadata now s =
    if refuses_event event_id device_id event_type s
    then raise integrity_error s
    else return true (record s {
      events =
          s.events
          ++ record {
            event_id = event_id;
            device_id = device_id;
            event_type = event_type;
            timestamp = current_timestamp now;
            description = description;
            metadata = metadata;
            created_at = current_timestamp now;
          }
            ∷ [];
    })

-- `get_by_id`
unfoldable pub get_event : Text → Store → Option Event
get_event event_id s = find (is_event event_id) s.events

-- ORDER BY timestamp DESC LIMIT ? OFFSET ?
abbrev pub event_page : ℕ → ℕ → List Event → List Event
event_page limit offset es = take limit (drop offset (order_desc (λ e. e.timestamp) es))

-- `list_by_device`
unfoldable pub list_events_by_device : Text → ℕ → ℕ → Store → List Event
list_events_by_device device_id limit offset s =
    event_page limit offset (select (λ e. text_eq e.device_id device_id) s.events)

-- `list_all`
unfoldable pub list_events : ℕ → ℕ → Store → List Event
list_events limit offset s = event_page limit offset s.events

-- `timestamp < ?`
abbrev pub older : Text → Event → Bool
older cutoff e = text_ltb e.timestamp cutoff

-- DELETE FROM device_events; the alerts of the events go too, dismissed or not.
unfoldable pub purge_events : (Event → Bool) → Store → Store
unfolding loses_event
purge_events gone s = record s {
  events = delete gone s.events;
  alerts = delete (loses_event gone s.events) s.alerts;
}

-- `delete_older_than`; `ago days` is the moment that many days before now.
unfoldable pub delete_older_than : (ℕ → Moment) → ℕ → Action Store ℕ
unfolding purge_events
delete_older_than ago days s =
    return (count (older (isoformat (ago days))) s.events)
      (purge_events (older (isoformat (ago days))) s)
