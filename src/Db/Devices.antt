-- ===== src/Db/Devices.antt =====
-- backend/db.py, `NetworkDeviceRepository`.
use homesentinel.Prelude.{
  Text, text_eq, is_set, Bool, true, false, not, ◌&&◌, ◌||◌, Option, none, some, List, [], ◌∷◌,
  ◌++◌, any, select, delete, update, find, order_desc, Action, integrity_error, return, raise,
  if◌then◌else◌, codes,
}
use homesentinel.Db.Schema.{
  Status, online, offline, status_eq, Sighting, History, null, entries, malformed, Device, Store,
  Event, Alert, DeviceLink, has_id, has_mac,
}

-- `get_by_id`
unfoldable pub get_by_id : Text → Action Store (Option Device)
get_by_id device_id s = return (find (has_id device_id) s.devices) s

-- `get_by_mac`
unfoldable pub get_by_mac : Text → Action Store (Option Device)
get_by_mac mac_address s = return (find (has_mac mac_address) s.devices) s

-- `json.loads`, and `[]` for a column that is NULL or cannot be read.
unfoldable pub parse_history : History → List Sighting
parse_history null = []
parse_history (entries h) = h
parse_history (malformed t) = []

-- `old_ip != new_ip` for an optional old address.
abbrev pub ip_differs : Option Text → Text → Bool
ip_differs none new = true
ip_differs (some old) new = not (text_eq old new)

abbrev pub sighting_of : Option Text → Text → List Sighting
sighting_of none now = []
sighting_of (some old) now = record { ip = old; seen_at = now } ∷ []

-- `current_ip and old_ip and old_ip != current_ip`
unfoldable pub ip_changed : Option Text → Option Text → Bool
ip_changed none old = false
ip_changed (some new) old = is_set (some new) && (is_set old && ip_differs old new)

-- The new column: `json.dumps(ip_history) if ip_history else None`.
abbrev pub dump_or_null : List Sighting → History
dump_or_null [] = null
dump_or_null (x ∷ xs) = entries (x ∷ xs)

unfoldable pub seen_again : Option Text → Text → Device → Device
unfolding ip_changed parse_history
seen_again current_ip now d = record d {
  current_ip = current_ip;
  ip_history = dump_or_null (
      parse_history d.ip_history
      ++ (if ip_changed current_ip d.current_ip then sighting_of d.current_ip now else []));
  ip_history_updated_at = some now;
  last_seen = now;
  status = online;
  updated_at = now;
}

unfoldable pub new_device : Text → Text → Option Text → Text → Device
new_device device_id mac_address current_ip now = record {
  device_id = device_id;
  mac_address = mac_address;
  current_ip = current_ip;
  first_seen = now;
  last_seen = now;
  status = online;
  created_at = now;
  updated_at = now;
  friendly_name = none;
  device_type = some (codes "unknown");
  vendor_name = none;
  notes = none;
  hostname = none;
  ip_history = null;
  ip_history_updated_at = none;
  preferred_deco_node = none;
  static_ip_enabled = false;
  reserved_ip = none;
}

-- `create_or_update`: the INSERT fails if another device holds the address.
unfoldable pub create_or_update : Text → Text → Option Text → Text → Action Store (Option Device)
unfolding seen_again new_device get_by_id
create_or_update device_id mac_address current_ip now s =
    if any (has_id device_id) s.devices
    then get_by_id device_id
        (record s { devices = update (has_id device_id) (seen_again current_ip now) s.devices })
    else (if any (has_mac mac_address) s.devices
        then raise integrity_error s
        else get_by_id device_id (record s {
          devices = s.devices ++ new_device device_id mac_address current_ip now ∷ [];
        }))

-- The keyword arguments of `update_device_metadata`. The last is absent for the sentinel "UNSET".
pub record Metadata : Type 0 where
  pub friendly_name : Option Text
  pub device_type : Option Text
  pub vendor_name : Option Text
  pub notes : Option Text
  pub preferred_deco_node : Option (Option Text)

abbrev pub no_metadata : Metadata
no_metadata = record {
  friendly_name = none;
  device_type = none;
  vendor_name = none;
  notes = none;
  preferred_deco_node = none;
}

abbrev pub given : Option Text → Option Text → Option Text
given none old = old
given (some new) old = some new

abbrev pub given_node : Option (Option Text) → Option Text → Option Text
given_node none old = old
given_node (some new) old = new

abbrev pub is_given {ℓ} : {A : Type ℓ} → Option A → Bool
is_given none = false
is_given (some a) = true

abbrev pub has_updates : Metadata → Bool
has_updates m =
    is_given m.friendly_name
    || (is_given m.device_type
        || (is_given m.vendor_name || (is_given m.notes || is_given m.preferred_deco_node)))

unfoldable pub with_metadata : Metadata → Text → Device → Device
with_metadata m now d = record d {
  friendly_name = given m.friendly_name d.friendly_name;
  device_type = given m.device_type d.device_type;
  vendor_name = given m.vendor_name d.vendor_name;
  notes = given m.notes d.notes;
  preferred_deco_node = given_node m.preferred_deco_node d.preferred_deco_node;
  updated_at = now;
}

-- `update_device_metadata`
unfoldable pub update_device_metadata : Text → Metadata → Text → Action Store (Option Device)
unfolding with_metadata get_by_id
update_device_metadata device_id m now s =
    if has_updates m
    then get_by_id device_id
        (record s { devices = update (has_id device_id) (with_metadata m now) s.devices })
    else get_by_id device_id s

unfoldable pub with_reservation : Bool → Option Text → Text → Device → Device
with_reservation enabled reserved_ip now d = record d {
  static_ip_enabled = enabled;
  reserved_ip = if enabled then reserved_ip else none;
  updated_at = now;
}

-- `set_static_ip_reservation`
unfoldable pub set_static_ip_reservation :
    Text → Bool → Option Text → Text → Action Store (Option Device)
unfolding with_reservation get_by_mac
set_static_ip_reservation mac_address enabled reserved_ip now s = get_by_mac mac_address (record s {
  devices = update (has_mac mac_address) (with_reservation enabled reserved_ip now) s.devices;
})

unfoldable pub moved_to : Text → Text → Device → Device
unfolding parse_history
moved_to new_ip now d = record d {
  current_ip = some new_ip;
  ip_history = entries (
      parse_history d.ip_history
      ++ (if is_set d.current_ip then sighting_of d.current_ip now else []));
  ip_history_updated_at = some now;
  updated_at = now;
}

abbrev pub stays_at : Option Device → Text → Bool
stays_at none new_ip = true
stays_at (some d) new_ip = not (ip_differs d.current_ip new_ip)

-- `update_current_ip`
unfoldable pub update_current_ip : Text → Text → Text → Action Store (Option Device)
unfolding moved_to get_by_id
update_current_ip device_id new_ip now s =
    if stays_at (find (has_id device_id) s.devices) new_ip
    then get_by_id device_id s
    else get_by_id device_id
        (record s { devices = update (has_id device_id) (moved_to new_ip now) s.devices })

-- `list_all`
unfoldable pub list_all : Store → List Device
list_all s = order_desc (λ d. d.last_seen) s.devices

-- `list_by_status`
unfoldable pub list_by_status : Status → Store → List Device
list_by_status st s = order_desc (λ d. d.last_seen) (select (λ d. status_eq d.status st) s.devices)

unfoldable pub as_offline : Text → Device → Device
as_offline now d = record d { status = offline; updated_at = now }

unfoldable pub as_online : Text → Device → Device
as_online now d = record d { status = online; last_seen = now; updated_at = now }

-- `mark_offline`
unfoldable pub mark_offline : Text → Text → Action Store (Option Device)
unfolding as_offline get_by_id
mark_offline device_id now s =
    get_by_id device_id
      (record s { devices = update (has_id device_id) (as_offline now) s.devices })

-- `mark_online`
unfoldable pub mark_online : Text → Text → Action Store (Option Device)
unfolding as_online get_by_id
mark_online device_id now s =
    get_by_id device_id (record s { devices = update (has_id device_id) (as_online now) s.devices })

-- The alerts that ON DELETE CASCADE removes with the events `gone` of `es`.
unfoldable pub loses_event : (Event → Bool) → List Event → Alert → Bool
loses_event gone es a = any (λ e. text_eq e.event_id a.event_id && gone e) es

-- `alexa_device_links` refers to the device, without ON DELETE CASCADE.
abbrev pub links_device : Text → DeviceLink → Bool
links_device device_id l = text_eq l.network_device_id device_id

abbrev pub without_device : Text → Store → Store
without_device device_id s = record s {
  devices = delete (has_id device_id) s.devices;
  members = delete (λ m. text_eq m.device_id device_id) s.members;
  events = delete (λ e. text_eq e.device_id device_id) s.events;
  alerts =
      delete
        (λ a.
          text_eq a.device_id device_id
          || loses_event (λ e. text_eq e.device_id device_id) s.events a)
        s.alerts;
}

-- `delete`: memberships, events and alerts of the device, and the alerts of those events, go too. The
-- DELETE of a device that an Alexa device is linked to fails.
unfoldable pub delete_device : Text → Action Store Bool
unfolding loses_event
delete_device device_id s =
    if not (any (has_id device_id) s.devices)
    then return false s
    else (if any (links_device device_id) s.links
        then raise integrity_error s
        else return true (without_device device_id s))
