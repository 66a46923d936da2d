-- ===== src/Scenarios/Merging.antt =====
-- The theorems about the sources of a scan and about router snapshots, on small inputs.
use homesentinel.Prelude.{
  ◌≡◌, refl, Text, text_eq, Option, none, some, List, [], ◌∷◌, All, codes, ok, true, get, Dict, put,
  map,
}
use homesentinel.Chester.{
  Neighbor, NetworkSnapshot, online_neighbors, collect_neighbors, add_neighbor, is_alive,
  is_online_state,
}
use homesentinel.Scanner.Sources.{
  DeviceInfo, DhcpEntry, Merged, chester, Network, merge_arp_and_dhcp, merge_arp, merge_dhcp,
  apply_chester_snapshot, drop_absent, add_neighbors, enrich,
}
use homesentinel.Scanner.Transitions.{transitions}
use homesentinel.Scanner.State.{World, stamp}
use homesentinel.Scanner.Presence.{transitions-devices, settle}
use homesentinel.Scanner.Merging.{
  apply_chester_snapshot_online, apply_chester_snapshot-Allowed, Allowed, present_in, ip_at,
}
use homesentinel.Scenarios.{household, household-IsSound, environment, before_deco_scan, mac_two}

abbrev one_seen : World
one_seen = record before_deco_scan { online_macs = mac_two ∷ [] }

transitions-devices_example :
    (transitions environment one_seen).1.store.devices
    ≡ map (settle (mac_two ∷ []) (stamp environment)) household.devices
transitions-devices_example = transitions-devices environment one_seen household-IsSound refl

abbrev found : List DeviceInfo
found =
    record {
      mac_address = codes "AA-BB-CC-DD-EE-02";
      ip_address = codes "192.168.12.20";
      hostname = none;
      vendor = none;
    }
    ∷ []

abbrev leases : List DhcpEntry
leases = record { mac = mac_two; ip = codes "192.168.12.30"; hostname = some (codes "phone") } ∷ []

abbrev arp_table : Dict Text
arp_table = (codes "192.168.12.30", mac_two) ∷ []

abbrev neighbor : Neighbor
neighbor = record {
  mac = codes "m1";
  ip = codes "10.0.0.5";
  state = codes "REACHABLE";
  confirmed_age = some 3;
}

abbrev snapshot : NetworkSnapshot
snapshot = record {
  neighbors = neighbor ∷ [];
  leases = record { mac = codes "m1"; ip = codes "10.0.0.7"; hostname = none; expiry = 0 } ∷ [];
  reservations = record { mac = codes "m1"; ip = codes "10.0.0.8"; name = codes "tv" } ∷ [];
}

-- A LAN that every address is on.
abbrev lan : Option Network
lan = some (λ ip. some true)

-- A stale lease, which the router does not confirm.
abbrev stale : List DhcpEntry
stale = record { mac = codes "m9"; ip = codes "10.0.0.9"; hostname = none } ∷ []

abbrev applied : Dict Merged
applied =
    (
      codes "m1",
      record { mac = codes "m1"; ip = codes "10.0.0.5"; hostname = none; source = chester },
    )
    ∷ []

applies : apply_chester_snapshot (merge_arp_and_dhcp [] stale) snapshot lan ≡ ok applied
unfolding apply_chester_snapshot merge_arp_and_dhcp merge_arp merge_dhcp drop_absent add_neighbors
    online_neighbors collect_neighbors add_neighbor is_alive is_online_state text_eq put get enrich
applies = refl

apply_chester_snapshot_online_example : ip_at (codes "m1") applied ≡ some (codes "10.0.0.5")
unfolding online_neighbors collect_neighbors add_neighbor is_alive is_online_state text_eq put get
apply_chester_snapshot_online_example =
    apply_chester_snapshot_online (merge_arp_and_dhcp [] stale) applied snapshot lan (codes "m1")
      neighbor applies refl

apply_chester_snapshot-Allowed_example : All (Allowed (present_in snapshot) lan) applied
apply_chester_snapshot-Allowed_example =
    apply_chester_snapshot-Allowed [] stale snapshot lan applied applies
