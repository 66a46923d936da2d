-- ===== src/Db/Integrity/Sound.antt =====
-- PRIMARY KEY, UNIQUE and FOREIGN KEY of the tables of `Store` as one invariant, but for the
-- reference of a link to `alexa_devices`, a table that `Store` does not hold.
use homesentinel.Prelude.{◌≡◌, Text, true, any, All, All-map, Distinct, DistinctPairs, List}
use homesentinel.Db.Schema.{Store, Device, has_id, is_event, is_group}

pub record IsSound (s : Store) : Type 0 where
  pub device_ids : Distinct (λ d. d.device_id) s.devices
  pub device_macs : Distinct (λ d. d.mac_address) s.devices
  pub group_ids : Distinct (λ g. g.group_id) s.groups
  pub group_names : Distinct (λ g. g.name) s.groups
  pub member_keys : DistinctPairs (λ m. m.group_id) (λ m. m.device_id) s.members
  pub link_keys : DistinctPairs (λ l. l.alexa_endpoint_id) (λ l. l.network_device_id) s.links
  pub link_devices : All (λ l. any (has_id l.network_device_id) s.devices ≡ true) s.links
  pub event_ids : Distinct (λ e. e.event_id) s.events
  pub alert_ids : Distinct (λ a. a.alert_id) s.alerts
  pub member_groups : All (λ m. any (is_group m.group_id) s.groups ≡ true) s.members
  pub member_devices : All (λ m. any (has_id m.device_id) s.devices ≡ true) s.members
  pub event_devices : All (λ e. any (has_id e.device_id) s.devices ≡ true) s.events
  pub alert_devices : All (λ a. any (has_id a.device_id) s.devices ≡ true) s.alerts
  pub alert_events : All (λ a. any (is_event a.event_id) s.events ≡ true) s.alerts

-- New rows of devices do, if they are distinct and no device is lost.
pub devices_replaced :
    (s : Store) (ds : List Device)
    → IsSound s
    → Distinct (λ d. d.device_id) ds
    → Distinct (λ d. d.mac_address) ds
    → ((k : Text) → any (has_id k) s.devices ≡ true → any (has_id k) ds ≡ true)
    → IsSound (record s { devices = ds })
devices_replaced s ds v ids macs kept = record {
  device_ids = ids;
  device_macs = macs;
  group_ids = v.group_ids;
  member_keys = v.member_keys;
  link_keys = v.link_keys;
  link_devices = All-map _ _ s.links (λ l. kept l.network_device_id) v.link_devices;
  group_names = v.group_names;
  event_ids = v.event_ids;
  alert_ids = v.alert_ids;
  member_groups = v.member_groups;
  member_devices = All-map _ _ s.members (λ m. kept m.device_id) v.member_devices;
  event_devices = All-map _ _ s.events (λ e. kept e.device_id) v.event_devices;
  alert_devices = All-map _ _ s.alerts (λ a. kept a.device_id) v.alert_devices;
  alert_events = v.alert_events;
}
