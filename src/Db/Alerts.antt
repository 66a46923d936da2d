-- ===== src/Db/Alerts.antt =====
-- backend/db.py, `DeviceAlertRepository`.
use homesentinel.Prelude.{
  ℕ, Text, text_eq, Bool, true, false, not, ◌||◌, Option, none, some, List, [], ◌∷◌, ◌++◌, any,
  select, update, count, find, order_desc, take, drop, Action, integrity_error, return, raise,
  if◌then◌else◌, ltb,
}
use homesentinel.Db.Schema.{
  Alert, Store, Moment, current_timestamp, has_id, is_event, is_alert, alert_type_allowed,
}

-- The constraints refuse the row.
unfoldable pub refuses_alert : Text → Text → Text → Text → Store → Bool
unfolding alert_type_allowed
refuses_alert alert_id device_id event_id alert_type s =
    any (is_alert alert_id) s.alerts
    || (not (any (has_id device_id) s.devices)
        || (not (any (is_event event_id) s.events) || not (alert_type_allowed alert_type)))

-- `create`
unfoldable pub create_alert_row : Text → Text → Text → Text → Moment → Action Store Bool
unfolding refuses_alert
create_alert_row alert_id device_id event_id alert_type now s =
    if refuses_alert alert_id device_id event_id alert_type s
    then raise integrity_error s
    else return true (record s {
      alerts =
          s.alerts
          ++ record {
            alert_id = alert_id;
            device_id = device_id;
            event_id = event_id;
            alert_type = alert_type;
            dismissed = false;
            dismissed_at = none;
            created_at = current_timestamp now;
            updated_at = current_timestamp now;
            seen = false;
          }
            ∷ [];
    })

-- `get_by_id`
unfoldable pub get_alert : Text → Store → Option Alert
get_alert alert_id s = find (is_alert alert_id) s.alerts

-- ORDER BY created_at DESC LIMIT ? OFFSET ?
abbrev pub alert_page : ℕ → ℕ → List Alert → List Alert
alert_page limit offset rows = take limit (drop offset (order_desc (λ a. a.created_at) rows))

-- `list_active`
unfoldable pub list_active : ℕ → ℕ → Store → List Alert
list_active limit offset s = alert_page limit offset (select (λ a. not a.dismissed) s.alerts)

-- `list_by_device`
unfoldable pub list_alerts_by_device : Text → ℕ → ℕ → Store → List Alert
list_alerts_by_device device_id limit offset s =
    alert_page limit offset (select (λ a. text_eq a.device_id device_id) s.alerts)

unfoldable pub as_dismissed : Moment → Alert → Alert
as_dismissed now a = record a {
  dismissed = true;
  dismissed_at = some (current_timestamp now);
  updated_at = current_timestamp now;
}

-- The UPDATE of `dismiss`.
unfoldable pub dismiss_rows : Text → Moment → Store → Store
unfolding as_dismissed
dismiss_rows alert_id now s = record s {
  alerts = update (is_alert alert_id) (as_dismissed now) s.alerts;
}

-- `dismiss`
unfoldable pub dismiss : Text → Moment → Action Store Bool
unfolding dismiss_rows
dismiss alert_id now s =
    return (ltb 0 (count (is_alert alert_id) s.alerts)) (dismiss_rows alert_id now s)
