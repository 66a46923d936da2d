-- ===== src/Db/Schema.antt =====
-- backend/migrations/001, 002, 003, 004, 006, 011, 014 and 017: the rows of the tables that
-- backend/db.py reads and writes, and the whole database.
use homesentinel.Prelude.{ℕ, Text, text_eq, Bool, true, false, Option, List, ◌∷◌, codes, ◌||◌, ◌++◌}

-- CHECK(status IN ('online', 'offline', 'unknown'))
pub data Status : Type 0 where
  online offline unknown : Status

unfoldable pub status_eq : Status → Status → Bool
status_eq online online = true
status_eq offline offline = true
status_eq unknown unknown = true
status_eq _ _ = false

-- An entry of the JSON list in the column `ip_history`.
pub record Sighting : Type 0 where
  pub ip : Text
  pub seen_at : Text

-- The column `ip_history`: NULL, a JSON list, or a text that `json.loads` refuses.
pub data History : Type 0 where
  null : History
  entries : List Sighting → History
  malformed : Text → History

pub record Device : Type 0 where
  pub device_id : Text
  pub mac_address : Text
  pub current_ip : Option Text
  pub first_seen : Text
  pub last_seen : Text
  pub status : Status
  pub created_at : Text
  pub updated_at : Text
  pub friendly_name : Option Text
  pub device_type : Option Text
  pub vendor_name : Option Text
  pub notes : Option Text
  pub hostname : Option Text
  pub ip_history : History
  pub ip_history_updated_at : Option Text
  pub preferred_deco_node : Option Text
  pub static_ip_enabled : Bool
  pub reserved_ip : Option Text

pub record Group : Type 0 where
  pub group_id : Text
  pub name : Text
  pub color : Text
  pub created_at : Text
  pub updated_at : Text

pub record Member : Type 0 where
  pub group_id : Text
  pub device_id : Text
  pub created_at : Text

pub record Event : Type 0 where
  pub event_id : Text
  pub device_id : Text
  pub event_type : Text
  pub timestamp : Text
  pub description : Option Text
  pub metadata : Option Text
  pub created_at : Text

pub record Alert : Type 0 where
  pub alert_id : Text
  pub device_id : Text
  pub event_id : Text
  pub alert_type : Text
  pub dismissed : Bool
  pub dismissed_at : Option Text
  pub created_at : Text
  pub updated_at : Text
  pub seen : Bool

-- A row of `alexa_device_links`
pub record DeviceLink : Type 0 where
  pub alexa_endpoint_id : Text
  pub network_device_id : Text
  pub link_type : Text
  pub created_at : Text

-- The single row of `polling_config`. SQLite would store any integer; the code refuses those below 1.
pub record PollingConfig : Type 0 where
  pub polling_interval_seconds : ℕ
  pub last_scan_timestamp : Option Text
  pub updated_at : Option Text

pub record Store : Type 0 where
  pub devices : List Device
  pub groups : List Group
  pub members : List Member
  pub events : List Event
  pub alerts : List Alert
  pub polling : Option PollingConfig
  pub links : List DeviceLink

abbrev pub has_id : Text → Device → Bool
has_id k d = text_eq d.device_id k

abbrev pub has_mac : Text → Device → Bool
has_mac k d = text_eq d.mac_address k

abbrev pub is_group : Text → Group → Bool
is_group k g = text_eq g.group_id k

abbrev pub is_event : Text → Event → Bool
is_event k e = text_eq e.event_id k

abbrev pub is_alert : Text → Alert → Bool
is_alert k a = text_eq a.alert_id k

-- CHECK(event_type IN …)
unfoldable pub event_type_allowed : Text → Bool
event_type_allowed t =
    text_eq t (codes "connected")
    || (text_eq t (codes "disconnected")
        || (text_eq t (codes "online")
            || (text_eq t (codes "offline") || text_eq t (codes "new_device"))))

-- CHECK(alert_type IN …)
unfoldable pub alert_type_allowed : Text → Bool
alert_type_allowed t =
    text_eq t (codes "new_device")
    || (text_eq t (codes "device_reconnected") || text_eq t (codes "device_offline"))

-- A moment of UTC: its date, ten characters, and the rest.
pub record Moment : Type 0 where
  pub date : Text
  pub clock : Text

-- `datetime.isoformat()`, the form of the retention cutoffs.
abbrev pub isoformat : Moment → Text
isoformat m = m.date ++ b'T' ∷ m.clock

-- CURRENT_TIMESTAMP, the form of the timestamps of events and alerts.
abbrev pub current_timestamp : Moment → Text
current_timestamp m = m.date ++ b' ' ∷ m.clock
