-- ===== src/Scanner/Sources.antt =====
-- The sources of a scan: `ARPScanner.scan_subnet`, `_get_vendor`, and
-- `NetworkDeviceService._merge_arp_and_dhcp` and `_apply_chester_snapshot`.
use homesentinel.Prelude.{
  Text, text_eq, is_empty, is_set, upper, starts_with, Bool, false, ◌&&◌, not, Option, none, some,
  List, [], ◌∷◌, ◌++◌, any, take, Dict, get, put, has, if◌then◌else◌, codes, Outcome, ok, raised,
  value_error, map,
}
use homesentinel.Mac.{normalize_lease_mac}
use homesentinel.Chester.{Neighbor, NetworkSnapshot, online_neighbors, default_max_stale_age}

pub record DeviceInfo : Type 0 where
  pub mac_address : Text
  pub ip_address : Text
  pub hostname : Option Text
  pub vendor : Option Text

-- `VENDOR_MAP`, in the order of the dict
abbrev pub vendor_map : List (Text × Text)
vendor_map =
    (codes "00:00:00", codes "XEROX")
    ∷ (codes "00:00:0C", codes "CISCO")
    ∷ (codes "00:50:F2", codes "MICROSOFT")
    ∷ (codes "00:1A:A0", codes "APPLE")
    ∷ (codes "B8:27:EB", codes "RASPBERRY PI")
    ∷ (codes "DC:A6:32", codes "RASPBERRY PI")
    ∷ (codes "E4:5F:01", codes "RASPBERRY PI")
    ∷ (codes "08:00:27", codes "VIRTUALBOX")
    ∷ (codes "52:54:00", codes "QEMU")
    ∷ (codes "00:0C:29", codes "VMWARE")
    ∷ []

unfoldable pub vendor_in : List (Text × Text) → Text → Option Text
vendor_in [] prefix = none
vendor_in ((p, vendor) ∷ m) prefix =
    let rest = vendor_in m prefix in if starts_with prefix p then some vendor else rest

-- `_get_vendor`
unfoldable pub get_vendor : Text → Option Text
unfolding vendor_in
get_vendor mac_address = vendor_in vendor_map (upper (take 8 mac_address))

-- `scan_arp_table_only`, on the table that `_read_arp_table` gives (IP to MAC)
unfoldable pub scan_arp_table_only : Dict Text → List DeviceInfo
unfolding get_vendor
scan_arp_table_only arp_map =
    map
      (λ e. record {
        mac_address = e.1;
        ip_address = e.0;
        hostname = none;
        vendor = get_vendor e.1;
      })
      arp_map

abbrev pub is_mac : Text → DeviceInfo → Bool
is_mac mac d = text_eq d.mac_address mac

-- The supplement of `scan_subnet`: the devices of the ARP table whose MAC is not there yet.
unfoldable pub supplement : List DeviceInfo → List DeviceInfo → List DeviceInfo
supplement devices [] = devices
supplement devices (d ∷ ds) =
    supplement (if any (is_mac d.mac_address) devices then devices else devices ++ d ∷ []) ds

-- `scan_subnet`: what the two tools report and the ARP table are arguments.
unfoldable pub scan_subnet :
    Bool → Bool → Bool → List DeviceInfo → List DeviceInfo → Dict Text → List DeviceInfo
unfolding supplement scan_arp_table_only
scan_subnet valid has_arp_scan has_nmap arp_scan nmap arp_map =
    if not valid
    then []
    else supplement (if has_arp_scan then arp_scan else (if has_nmap then nmap else []))
        (scan_arp_table_only arp_map)

-- A dict of `parse_dhcp_leases`.
pub record DhcpEntry : Type 0 where
  pub mac : Text
  pub ip : Text
  pub hostname : Option Text

pub data Source : Type 0 where
  arp dhcp chester : Source

-- A value of the merged dict.
pub record Merged : Type 0 where
  pub mac : Text
  pub ip : Text
  pub hostname : Option Text
  pub source : Source

unfoldable pub merge_arp : List DeviceInfo → Dict Merged → Dict Merged
merge_arp [] merged = merged
merge_arp (d ∷ ds) merged = merge_arp ds (
    if is_empty (normalize_lease_mac d.mac_address)
    then merged
    else put (normalize_lease_mac d.mac_address)
        (record {
          mac = normalize_lease_mac d.mac_address;
          ip = d.ip_address;
          hostname = d.hostname;
          source = arp;
        })
        merged)

-- The entry of a lease's MAC after the lease.
unfoldable pub enrich : DhcpEntry → Option Merged → Merged
enrich l none = record { mac = l.mac; ip = l.ip; hostname = l.hostname; source = dhcp }
enrich l (some m) =
    if not (is_set m.hostname) && is_set l.hostname then record m { hostname = l.hostname } else m

unfoldable pub merge_dhcp : List DhcpEntry → Dict Merged → Dict Merged
unfolding enrich
merge_dhcp [] merged = merged
merge_dhcp (l ∷ ls) merged =
    merge_dhcp ls
      (if is_empty l.mac then merged else put l.mac (enrich l (get l.mac merged)) merged)

-- `_merge_arp_and_dhcp`
unfoldable pub merge_arp_and_dhcp : List DeviceInfo → List DhcpEntry → Dict Merged
unfolding merge_arp merge_dhcp
merge_arp_and_dhcp arp_devices dhcp_leases = merge_dhcp dhcp_leases (merge_arp arp_devices [])

-- `ipaddress.ip_address(ip) in network`; `none` where the address does not parse (ValueError).
abbrev pub Network : Type 0
Network = Text → Option Bool

abbrev pub in_network : Option Network → Text → Outcome Bool
in_network none ip = ok false
in_network (some net) ip =
    if is_empty ip then ok false else (elim (net ip) [ none ↦ raised value_error | some b ↦ ok b ])

abbrev pub keep_unless :
    Outcome Bool → Bool → Text × Merged → Outcome (Dict Merged) → Outcome (Dict Merged)
keep_unless (raised e) online entry rest = raised e
keep_unless (ok on_lan) online entry (raised e) = raised e
keep_unless (ok on_lan) online entry (ok rest) =
    if on_lan && not online then ok rest else ok (entry ∷ rest)

-- The first loop: entries on the LAN that the router does not see are dropped.
unfoldable pub drop_absent : Option Network → Dict Neighbor → Dict Merged → Outcome (Dict Merged)
drop_absent net online [] = ok []
drop_absent net online ((k, m) ∷ merged) =
    keep_unless (in_network net m.ip) (has m.mac online) (k, m) (drop_absent net online merged)

abbrev pub from_router : Neighbor → Text → Option Merged → Merged
from_router n mac none = record { mac = mac; ip = n.ip; hostname = none; source = chester }
from_router n mac (some m) = record m { ip = n.ip }

-- The second loop: every device that the router sees is there with the router's address.
unfoldable pub add_neighbors : Dict Neighbor → Dict Merged → Dict Merged
add_neighbors [] merged = merged
add_neighbors ((mac, n) ∷ online) merged =
    add_neighbors online (put mac (from_router n mac (get mac merged)) merged)

abbrev pub after_drop : Outcome (Dict Merged) → Dict Neighbor → Outcome (Dict Merged)
after_drop (raised e) online = raised e
after_drop (ok merged) online = ok (add_neighbors online merged)

-- `_apply_chester_snapshot`
unfoldable pub apply_chester_snapshot :
    Dict Merged → NetworkSnapshot → Option Network → Outcome (Dict Merged)
unfolding drop_absent add_neighbors
apply_chester_snapshot merged snapshot net =
    let online = online_neighbors default_max_stale_age snapshot in
    after_drop (drop_absent net online merged) online
