-- ===== src/Db/History.antt =====
-- Every call of a repository that writes, and every write of a link, as data, and histories of such
-- calls.
use homesentinel.Prelude.{ℕ, Text, Bool, Option, none, List, [], ◌∷◌, leb, Bool-cases, inl, inr}
use homesentinel.Db.Schema.{Store, Moment, isoformat, PollingConfig}
use homesentinel.Db.Devices.{
  create_or_update, update_device_metadata, Metadata, set_static_ip_reservation, update_current_ip,
  mark_offline, mark_online, delete_device,
}
use homesentinel.Db.Groups.{create_group, update_group, delete_group, add_member, remove_member}
use homesentinel.Db.Events.{create_event, delete_older_than, older}
use homesentinel.Db.Alerts.{create_alert_row, dismiss}
use homesentinel.Db.Polling.{set_interval, update_last_scan}
use homesentinel.Db.Links.{link_alexa_to_network, auto_link, unlink_alexa_from_network}
use homesentinel.Db.Integrity.{IsSound}
use homesentinel.Db.Integrity.Links.{
  link_alexa_to_network-IsSound, auto_link-IsSound, unlink_alexa_from_network-IsSound,
}
use homesentinel.Db.Integrity.Devices.{
  create_or_update-IsSound, update_device_metadata-IsSound, set_static_ip_reservation-IsSound,
  update_current_ip-IsSound, mark_offline-IsSound, mark_online-IsSound, delete_device-IsSound,
}
use homesentinel.Db.Integrity.Groups.{
  create_group-IsSound, update_group-IsSound, delete_group-IsSound, add_member-IsSound,
  remove_member-IsSound,
}
use homesentinel.Db.Integrity.Events.{
  create_event-IsSound, create_alert_row-IsSound, dismiss_rows-IsSound, purge_events-IsSound,
}

pub data Call : Type 0 where
  sees_device : Text → Text → Option Text → Text → Call
  sets_metadata : Text → Metadata → Text → Call
  reserves_ip : Text → Bool → Option Text → Text → Call
  moves_ip : Text → Text → Text → Call
  marks_offline marks_online : Text → Text → Call
  deletes_device : Text → Call
  creates_group : Text → Text → Text → Text → Call
  updates_group : Text → Option Text → Option Text → Text → Call
  deletes_group : Text → Call
  adds_member : Text → Text → Text → Call
  removes_member : Text → Text → Call
  creates_event : Text → Text → Text → Option Text → Option Text → Moment → Call
  deletes_older : (ℕ → Moment) → ℕ → Call
  creates_alert : Text → Text → Text → Text → Moment → Call
  dismisses : Text → Moment → Call
  sets_interval : ℕ → Text → Call
  scans : Text → Call
  makes_link makes_auto_link : List Text → Text → Text → Text → Call
  removes_link : Text → Text → Call

-- The database after a call, which may have raised.
unfoldable pub apply : Call → Store → Store
unfolding dismiss delete_older_than set_interval update_last_scan
apply (sees_device id mac ip now) s = (create_or_update id mac ip now s).1
apply (sets_metadata id m now) s = (update_device_metadata id m now s).1
apply (reserves_ip mac enabled ip now) s = (set_static_ip_reservation mac enabled ip now s).1
apply (moves_ip id ip now) s = (update_current_ip id ip now s).1
apply (marks_offline id now) s = (mark_offline id now s).1
apply (marks_online id now) s = (mark_online id now s).1
apply (deletes_device id) s = (delete_device id s).1
apply (creates_group id name color now) s = (create_group id name color now s).1
apply (updates_group id name color now) s = (update_group id name color now s).1
apply (deletes_group id) s = (delete_group id s).1
apply (adds_member group device now) s = (add_member group device now s).1
apply (removes_member group device) s = (remove_member group device s).1
apply (creates_event id device kind description metadata now) s =
    (create_event id device kind description metadata now s).1
apply (deletes_older ago days) s = (delete_older_than ago days s).1
apply (creates_alert id device event kind now) s = (create_alert_row id device event kind now s).1
apply (dismisses id now) s = (dismiss id now s).1
apply (sets_interval n now) s = (set_interval n now s).1
apply (scans now) s = (update_last_scan now s).1
apply (makes_link endpoints endpoint device now) s =
    (link_alexa_to_network endpoints endpoint device now s).1
apply (makes_auto_link endpoints endpoint device now) s =
    (auto_link endpoints endpoint device now s).1
apply (removes_link endpoint device) s = (unlink_alexa_from_network endpoint device s).1

unfoldable pub run : List Call → Store → Store
run [] s = s
run (c ∷ cs) s = run cs (apply c s)

-- The database that the migrations leave, but for the default row of `polling_config`.
abbrev pub empty_store : Store
empty_store = record {
  devices = [];
  groups = [];
  members = [];
  events = [];
  alerts = [];
  polling = none;
  links = [];
}

pub polling_replaced :
    (s : Store) (row : Option PollingConfig) → IsSound s → IsSound (record s { polling = row })
polling_replaced s row v = record {
  device_ids = v.device_ids;
  device_macs = v.device_macs;
  group_ids = v.group_ids;
  member_keys = v.member_keys;
  link_keys = v.link_keys;
  link_devices = v.link_devices;
  group_names = v.group_names;
  event_ids = v.event_ids;
  alert_ids = v.alert_ids;
  member_groups = v.member_groups;
  member_devices = v.member_devices;
  event_devices = v.event_devices;
  alert_devices = v.alert_devices;
  alert_events = v.alert_events;
}

set_interval-IsSound :
    (n : ℕ) (now : Text) (s : Store) → IsSound s → IsSound (set_interval n now s).1
unfolding set_interval
set_interval-IsSound n now s v = elim (Bool-cases (leb n 0)) [
  | inl refused ↦ rw refused v
  | inr fine ↦ rw fine (polling_replaced s _ v)
]

-- Every write of a repository or of a link to a sound database, whether it succeeds or raises,
-- leaves the keys of every table distinct, the two-column keys of memberships and links included,
-- and every reference to a device, a group or an event intact.
pub apply-IsSound : (c : Call) (s : Store) → IsSound s → IsSound (apply c s)
unfolding apply
apply-IsSound (sees_device id mac ip now) s v = create_or_update-IsSound id mac ip now s v
apply-IsSound (sets_metadata id m now) s v = update_device_metadata-IsSound id m now s v
apply-IsSound (reserves_ip mac enabled ip now) s v =
    set_static_ip_reservation-IsSound mac enabled ip now s v
apply-IsSound (moves_ip id ip now) s v = update_current_ip-IsSound id ip now s v
apply-IsSound (marks_offline id now) s v = mark_offline-IsSound id now s v
apply-IsSound (marks_online id now) s v = mark_online-IsSound id now s v
apply-IsSound (deletes_device id) s v = delete_device-IsSound id s v
apply-IsSound (creates_group id name color now) s v = create_group-IsSound id name color now s v
apply-IsSound (updates_group id name color now) s v = update_group-IsSound id name color now s v
apply-IsSound (deletes_group id) s v = delete_group-IsSound id s v
apply-IsSound (adds_member group device now) s v = add_member-IsSound group device now s v
apply-IsSound (removes_member group device) s v = remove_member-IsSound group device s v
apply-IsSound (creates_event id device kind description metadata now) s v =
    create_event-IsSound id device kind description metadata now s v
apply-IsSound (deletes_older ago days) s v = purge_events-IsSound (older (isoformat (ago days))) s v
apply-IsSound (creates_alert id device event kind now) s v =
    create_alert_row-IsSound id device event kind now s v
apply-IsSound (dismisses id now) s v = dismiss_rows-IsSound id now s v
apply-IsSound (sets_interval n now) s v = set_interval-IsSound n now s v
apply-IsSound (scans now) s v = polling_replaced s _ v
apply-IsSound (makes_link endpoints endpoint device now) s v =
    link_alexa_to_network-IsSound endpoints endpoint device now s v
apply-IsSound (makes_auto_link endpoints endpoint device now) s v =
    auto_link-IsSound endpoints endpoint device now s v
apply-IsSound (removes_link endpoint device) s v =
    unlink_alexa_from_network-IsSound endpoint device s v

run-IsSound : (cs : List Call) (s : Store) → IsSound s → IsSound (run cs s)
unfolding run
run-IsSound [] s v = v
run-IsSound (c ∷ cs) s v = run-IsSound cs (apply c s) (apply-IsSound c s v)

-- The keys of every table are distinct, the two-column keys of memberships and links included, and
-- every reference to a device, a group or an event is intact after any history of writes of the
-- repositories and of links from the empty database.
pub run-empty-IsSound : (cs : List Call) → IsSound (run cs empty_store)
run-empty-IsSound cs = run-IsSound cs empty_store (record {
  device_ids = tt;
  device_macs = tt;
  group_ids = tt;
  member_keys = tt;
  link_keys = tt;
  link_devices = tt;
  group_names = tt;
  event_ids = tt;
  alert_ids = tt;
  member_groups = tt;
  member_devices = tt;
  event_devices = tt;
  alert_devices = tt;
  alert_events = tt;
})
