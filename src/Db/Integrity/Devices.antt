-- ===== src/Db/Integrity/Devices.antt =====
-- `NetworkDeviceRepository` keeps the database sound.
use homesentinel.Prelude.{
  ◌≡◌, refl, Text, Bool, true, false, ◌&&◌, any, update, delete, Option, All-map, All-delete,
  Distinct-update, Distinct-delete, Distinct-insert, DistinctPairs-delete, List, not, false, All,
  any-update, any-append, any-kept, any-false, ◌∷◌, [], List, arith, text_eq, text_eq_iff,
  Bool-cases, inl, inr, ◌++◌,
}
use homesentinel.Db.Schema.{Store, Device, DeviceLink, has_id, has_mac, is_event}
use homesentinel.Db.Devices.{
  create_or_update, seen_again, new_device, update_device_metadata, with_metadata, Metadata,
  set_static_ip_reservation, with_reservation, update_current_ip, moved_to, mark_offline,
  mark_online, as_offline, as_online, delete_device, links_device, without_device, loses_event,
}
use homesentinel.Db.Integrity.Sound.{IsSound, devices_replaced}

-- An UPDATE that leaves the keys alone.
pub update-IsSound :
    (s : Store) (p : Device → Bool) (f : Device → Device)
    → IsSound s
    → ((d : Device) → (f d).device_id ≡ d.device_id)
    → ((d : Device) → (f d).mac_address ≡ d.mac_address)
    → IsSound (record s { devices = update p f s.devices })
update-IsSound s p f v ids macs =
    devices_replaced s (update p f s.devices) v
      (Distinct-update (λ d. d.device_id) p f s.devices ids v.device_ids)
      (Distinct-update (λ d. d.mac_address) p f s.devices macs v.device_macs)
      (λ k h. rw (any-update p (has_id k) f s.devices (λ d. rw (ids d))) h)

insert-IsSound :
    (s : Store) (d : Device)
    → IsSound s
    → any (has_id d.device_id) s.devices ≡ false
    → any (has_mac d.mac_address) s.devices ≡ false
    → IsSound (record s { devices = s.devices ++ d ∷ [] })
insert-IsSound s d v i m =
    devices_replaced s (s.devices ++ d ∷ []) v
      (Distinct-insert (λ d'. d'.device_id) d s.devices i v.device_ids)
      (Distinct-insert (λ d'. d'.mac_address) d s.devices m v.device_macs)
      (λ k h. rw (any-append (has_id k) s.devices (d ∷ []), h))

pub create_or_update-IsSound :
    (id mac : Text) (ip : Option Text) (now : Text) (s : Store)
    → IsSound s
    → IsSound (create_or_update id mac ip now s).1
unfolding create_or_update
create_or_update-IsSound id mac ip now s v = elim (Bool-cases (any (has_id id) s.devices)) [
  | inl known ↦
      rw known (update-IsSound s (has_id id) (seen_again ip now) v (λ d. refl) (λ d. refl))
  | inr new ↦ rw new (elim (Bool-cases (any (has_mac mac) s.devices)) [
    | inl taken ↦ rw taken v
    | inr free ↦ rw free (insert-IsSound s (new_device id mac ip now) v new free)
  ])
]

pub update_device_metadata-IsSound :
    (id : Text) (m : Metadata) (now : Text) (s : Store)
    → IsSound s
    → IsSound (update_device_metadata id m now s).1
unfolding update_device_metadata
update_device_metadata-IsSound id m now s v =
    ground (arith, v, update-IsSound s (has_id id) (with_metadata m now) v (λ d. refl) (λ d. refl))

pub set_static_ip_reservation-IsSound :
    (mac : Text) (enabled : Bool) (ip : Option Text) (now : Text) (s : Store)
    → IsSound s
    → IsSound (set_static_ip_reservation mac enabled ip now s).1
unfolding set_static_ip_reservation
set_static_ip_reservation-IsSound mac enabled ip now s v =
    update-IsSound s (has_mac mac) (with_reservation enabled ip now) v (λ d. refl) (λ d. refl)

pub update_current_ip-IsSound :
    (id ip now : Text) (s : Store) → IsSound s → IsSound (update_current_ip id ip now s).1
unfolding update_current_ip
update_current_ip-IsSound id ip now s v =
    ground (arith, v, update-IsSound s (has_id id) (moved_to ip now) v (λ d. refl) (λ d. refl))

pub mark_offline-IsSound :
    (id now : Text) (s : Store) → IsSound s → IsSound (mark_offline id now s).1
unfolding mark_offline
mark_offline-IsSound id now s v =
    update-IsSound s (has_id id) (as_offline now) v (λ d. refl) (λ d. refl)

pub mark_online-IsSound : (id now : Text) (s : Store) → IsSound s → IsSound (mark_online id now s).1
unfolding mark_online
mark_online-IsSound id now s v =
    update-IsSound s (has_id id) (as_online now) v (λ d. refl) (λ d. refl)

-- A row of another device still has its device.
still_there :
    (k id : Text) (ds : List Device)
    → any (has_id k) ds ≡ true
    → text_eq k id ≡ false
    → any (has_id k) (delete (has_id id) ds) ≡ true
still_there k id ds h other = any-kept (has_id k) (has_id id) ds h (any-false _ ds apart)
  where
    apart : (d : Device) → (has_id k d && has_id id d) ≡ false
    apart d =
        ground (arith, text_eq_iff d.device_id k, text_eq_iff d.device_id id, text_eq_iff k id)

-- Links to other devices still have theirs.
links_left :
    (id : Text) (ds : List Device) (ls : List DeviceLink)
    → any (links_device id) ls ≡ false
    → All (λ l. any (has_id l.network_device_id) ds ≡ true) ls
    → All (λ l. any (has_id l.network_device_id) (delete (has_id id) ds) ≡ true) ls
unfolding any
links_left id ds [] free h = tt
links_left id ds (l ∷ ls) free h = (
  still_there l.network_device_id id ds h.0 (ground (arith, free)),
  links_left id ds ls (ground (arith, free)) h.1,
)

without_device-IsSound :
    (id : Text) (s : Store)
    → IsSound s
    → any (links_device id) s.links ≡ false
    → IsSound (without_device id s)
unfolding loses_event
without_device-IsSound id s v free = record {
  device_ids = Distinct-delete (λ d. d.device_id) (has_id id) s.devices v.device_ids;
  device_macs = Distinct-delete (λ d. d.mac_address) (has_id id) s.devices v.device_macs;
  group_ids = v.group_ids;
  member_keys = DistinctPairs-delete _ _ _ s.members v.member_keys;
  link_keys = v.link_keys;
  link_devices = links_left id s.devices s.links free v.link_devices;
  group_names = v.group_names;
  event_ids = Distinct-delete (λ e. e.event_id) _ s.events v.event_ids;
  alert_ids = Distinct-delete (λ a. a.alert_id) _ s.alerts v.alert_ids;
  member_groups = All-map _ _ _ (λ m h. h.0) (All-delete _ _ s.members v.member_groups);
  member_devices =
      All-map _ _ _ (λ m h. still_there m.device_id id s.devices h.0 h.1)
        (All-delete _ _ s.members v.member_devices);
  event_devices =
      All-map _ _ _ (λ e h. still_there e.device_id id s.devices h.0 h.1)
        (All-delete _ _ s.events v.event_devices);
  alert_devices =
      All-map _ _ _ (λ a h. still_there a.device_id id s.devices h.0 (ground arith))
        (All-delete _ _ s.alerts v.alert_devices);
  alert_events =
      All-map _ _ _
        (λ a h.
          any-kept (is_event a.event_id) (λ e. text_eq e.device_id id) s.events h.0 (ground arith))
        (All-delete _ _ s.alerts v.alert_events);
}

-- DELETE of a device, with the cascades, keeps the database sound.
pub delete_device-IsSound : (id : Text) (s : Store) → IsSound s → IsSound (delete_device id s).1
unfolding delete_device
delete_device-IsSound id s v = elim (Bool-cases (not (any (has_id id) s.devices))) [
  | inl unknown ↦ rw unknown v
  | inr known ↦ rw known (elim (Bool-cases (any (links_device id) s.links)) [
    | inl linked ↦ rw linked v
    | inr free ↦ rw free (without_device-IsSound id s v free)
  ])
]
