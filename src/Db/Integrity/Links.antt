-- ===== src/Db/Integrity/Links.antt =====
-- The statements on links keep the database sound.
use homesentinel.Prelude.{
  ◌≡◌, Text, Bool, true, false, any, delete, All, All-map, All-append, All-delete, DistinctPairs,
  DistinctPairs-insert, DistinctPairs-delete, any-delete_self, ◌∷◌, [], List, arith, Bool-cases,
  inl, inr, ◌++◌,
}
use homesentinel.Db.Schema.{Store, DeviceLink, has_id}
use homesentinel.Db.Links.{
  is_link, refuses_link, link_alexa_to_network, unlink_alexa_from_network, auto_link,
}
use homesentinel.Db.Integrity.Sound.{IsSound}

links_replaced :
    (s : Store) (ls : List DeviceLink)
    → IsSound s
    → DistinctPairs (λ l. l.alexa_endpoint_id) (λ l. l.network_device_id) ls
    → All (λ l. any (has_id l.network_device_id) s.devices ≡ true) ls
    → IsSound (record s { links = ls })
links_replaced s ls v keys devices = record {
  device_ids = v.device_ids;
  device_macs = v.device_macs;
  group_ids = v.group_ids;
  member_keys = v.member_keys;
  link_keys = keys;
  link_devices = devices;
  group_names = v.group_names;
  event_ids = v.event_ids;
  alert_ids = v.alert_ids;
  member_groups = v.member_groups;
  member_devices = v.member_devices;
  event_devices = v.event_devices;
  alert_devices = v.alert_devices;
  alert_events = v.alert_events;
}

-- A link that is new, over links that are there.
append_link-IsSound :
    (s : Store) (ls : List DeviceLink) (l : DeviceLink)
    → IsSound s
    → DistinctPairs (λ l. l.alexa_endpoint_id) (λ l. l.network_device_id) ls
    → All (λ l. any (has_id l.network_device_id) s.devices ≡ true) ls
    → any (is_link l.alexa_endpoint_id l.network_device_id) ls ≡ false
    → any (has_id l.network_device_id) s.devices ≡ true
    → IsSound (record s { links = ls ++ l ∷ [] })
append_link-IsSound s ls l v keys devices fresh device =
    links_replaced s (ls ++ l ∷ []) v
      (DistinctPairs-insert (λ l. l.alexa_endpoint_id) (λ l. l.network_device_id) l ls fresh keys)
      (All-append _ ls (l ∷ []) devices (device, tt))

module _ (s : Store) (p : DeviceLink → Bool) (v : IsSound s) where
  keys_left : DistinctPairs (λ l. l.alexa_endpoint_id) (λ l. l.network_device_id) (delete p s.links)
  keys_left = DistinctPairs-delete _ _ p s.links v.link_keys

  devices_left : All (λ l. any (has_id l.network_device_id) s.devices ≡ true) (delete p s.links)
  devices_left = All-map _ _ _ (λ l h. h.0) (All-delete _ p s.links v.link_devices)

has_device :
    (endpoints : List Text) (endpoint device : Text) (s : Store)
    → refuses_link endpoints endpoint device s ≡ false
    → any (has_id device) s.devices ≡ true
unfolding refuses_link
has_device endpoints endpoint device s h = ground (arith, h)

pub link_alexa_to_network-IsSound :
    (endpoints : List Text) (endpoint device now : Text) (s : Store)
    → IsSound s
    → IsSound (link_alexa_to_network endpoints endpoint device now s).1
unfolding link_alexa_to_network
link_alexa_to_network-IsSound endpoints endpoint device now s v =
    elim (Bool-cases (refuses_link endpoints endpoint device s)) [
      | inl refused ↦ rw refused v
      | inr taken ↦ rw taken (
          append_link-IsSound s (delete (is_link endpoint device) s.links) _ v
            (keys_left s (is_link endpoint device) v) (devices_left s (is_link endpoint device) v)
            (any-delete_self (is_link endpoint device) s.links)
            (has_device endpoints endpoint device s taken))
    ]

pub unlink_alexa_from_network-IsSound :
    (endpoint device : Text) (s : Store)
    → IsSound s
    → IsSound (unlink_alexa_from_network endpoint device s).1
unfolding unlink_alexa_from_network
unlink_alexa_from_network-IsSound endpoint device s v =
    links_replaced s (delete (is_link endpoint device) s.links) v
      (keys_left s (is_link endpoint device) v) (devices_left s (is_link endpoint device) v)

pub auto_link-IsSound :
    (endpoints : List Text) (endpoint device now : Text) (s : Store)
    → IsSound s
    → IsSound (auto_link endpoints endpoint device now s).1
unfolding auto_link
auto_link-IsSound endpoints endpoint device now s v =
    elim (Bool-cases (any (is_link endpoint device) s.links)) [
      | inl there ↦ rw there v
      | inr absent ↦ rw absent (elim (Bool-cases (refuses_link endpoints endpoint device s)) [
        | inl refused ↦ rw refused v
        | inr taken ↦ rw taken (
            append_link-IsSound s s.links _ v v.link_keys v.link_devices absent
              (has_device endpoints endpoint device s taken))
      ])
    ]
