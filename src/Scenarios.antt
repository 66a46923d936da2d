-- ===== src/Scenarios.antt =====
-- A small household on which the theorems are run: a device that was online with an old event and
-- its alert, and a scan that sees only a remembered node of the Deco instead.
pub mod Database
pub mod Network
pub mod Merging
pub mod Names
pub mod Clients
pub mod Polling
pub mod Packets
pub mod Voice
pub mod Mesh
pub mod Services
use homesentinel.Prelude.{
  ℕ, refl, Text, text_eq, Option, none, some, List, [], ◌∷◌, any, codes, Outcome, ok, raised,
  external_error, Bool, true, false,
}
use homesentinel.Db.Schema.{
  Store, Device, Event, Alert, Group, Member, Moment, isoformat, current_timestamp, Status, online,
  offline, null, has_id, is_event, is_group,
}
use homesentinel.Db.Integrity.{IsSound}
use homesentinel.Oui.{Oui}
use homesentinel.Scanner.State.{World, Env, Endpoint}
use homesentinel.Scanner.Scan.{Inputs, empty_results}

abbrev pub today : Moment
today = record { date = codes "2026-10-14"; clock = codes "08:00:00" }

abbrev pub cutoff_evening : Moment
cutoff_evening = record { date = codes "2026-07-16"; clock = codes "23:00:00" }

-- Any number of days ago is the morning of one day.
abbrev pub long_ago : ℕ → Moment
long_ago days = record { date = codes "2026-07-16"; clock = codes "08:00:00" }

abbrev pub mac_one : Text
mac_one = codes "aa:bb:cc:dd:ee:01"

abbrev pub mac_two : Text
mac_two = codes "aa:bb:cc:dd:ee:02"

abbrev pub device_one : Device
device_one = record {
  device_id = codes "d1";
  mac_address = mac_one;
  current_ip = some (codes "192.168.12.10");
  first_seen = isoformat cutoff_evening;
  last_seen = isoformat cutoff_evening;
  status = online;
  created_at = isoformat cutoff_evening;
  updated_at = isoformat cutoff_evening;
  friendly_name = none;
  device_type = none;
  vendor_name = none;
  notes = none;
  hostname = none;
  ip_history = null;
  ip_history_updated_at = none;
  preferred_deco_node = none;
  static_ip_enabled = false;
  reserved_ip = none;
}

abbrev pub event_one : Event
event_one = record {
  event_id = codes "e1";
  device_id = codes "d1";
  event_type = codes "connected";
  timestamp = current_timestamp cutoff_evening;
  description = none;
  metadata = none;
  created_at = current_timestamp cutoff_evening;
}

abbrev pub alert_one : Alert
alert_one = record {
  alert_id = codes "a1";
  device_id = codes "d1";
  event_id = codes "e1";
  alert_type = codes "device_reconnected";
  dismissed = false;
  dismissed_at = none;
  created_at = current_timestamp cutoff_evening;
  updated_at = current_timestamp cutoff_evening;
  seen = false;
}

abbrev pub household : Store
household = record {
  devices = device_one ∷ [];
  groups = [];
  members = [];
  events = event_one ∷ [];
  alerts = alert_one ∷ [];
  polling = none;
  links = [];
}

pub household-IsSound : IsSound household
unfolding any text_eq
household-IsSound = record {
  device_ids = (refl, tt);
  device_macs = (refl, tt);
  group_ids = tt;
  member_keys = tt;
  link_keys = tt;
  link_devices = tt;
  group_names = tt;
  event_ids = (refl, tt);
  alert_ids = (refl, tt);
  member_groups = tt;
  member_devices = tt;
  event_devices = (refl, tt);
  alert_devices = (refl, tt);
  alert_events = (refl, tt);
}

abbrev pub environment : Env
environment = record {
  uuid5 = λ mac. mac;
  uuid4 = λ n. n ∷ [];
  decode_nickname = λ s. some s;
  has_event_service = true;
  now = today;
}

abbrev pub before_scan : World
before_scan = record {
  store = household;
  oui = record { oui_database = []; cache = [] };
  drawn = 0;
  deco = none;
  saved_endpoint = none;
  deco_master_mac = none;
  deco_node_macs = [];
  online_macs = [];
  results = empty_results;
}

abbrev pub url : Endpoint
url = record { scheme = codes "http"; hostname = codes "192.168.12.188"; port = none }

-- A Deco of which one node is remembered, not that of the device.
abbrev pub before_deco_scan : World
before_deco_scan = record before_scan {
  deco = some (record {
    local_endpoint = url;
    active_endpoint = url;
    use_cloud = false;
    node_endpoints = [];
  });
  deco_node_macs = mac_two ∷ [];
}

-- Only the Deco answers, without clients and nodes.
abbrev pub quiet_network : Inputs
quiet_network = record {
  discovered = [];
  leases = [];
  snapshot = none;
  network = none;
  seconds = 0;
  clients = ok [];
  nodes = ok [];
  chester_status = raised (external_error (codes "timeout"));
}
