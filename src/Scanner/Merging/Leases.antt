-- ===== src/Scanner/Merging/Leases.antt =====
-- The merge of ARP and DHCP, and the supplement of a subnet scan from the ARP table.
use homesentinel.Prelude.{
  ◌≡◌, refl, Text, text_eq, text_eq_iff, text_eq_refl, is_empty, is_set, Bool, true, ◌&&◌, not,
  Option, none, some, List, [], ◌∷◌, All, Dict, get, put, arith, if◌then◌else◌,
}
use homesentinel.Mac.{normalize_lease_mac}
use homesentinel.Scanner.Sources.{
  DeviceInfo, DhcpEntry, Merged, arp, dhcp, merge_arp, enrich, merge_dhcp, merge_arp_and_dhcp,
}

abbrev arp_of : Text → DeviceInfo → Bool
arp_of k d =
    not (is_empty (normalize_lease_mac d.mac_address))
    && text_eq (normalize_lease_mac d.mac_address) k

abbrev lease_of : Text → DhcpEntry → Bool
lease_of k l = not (is_empty l.mac) && text_eq l.mac k

-- The last device that the ARP scan reports under the MAC.
unfoldable pub last_arp : Text → List DeviceInfo → Option DeviceInfo
last_arp k [] = none
last_arp k (d ∷ ds) = elim (last_arp k ds) [
  | none ↦ if arp_of k d then some d else none
  | some later ↦ some later
]

-- The first lease of the MAC.
unfoldable pub first_lease : Text → List DhcpEntry → Option DhcpEntry
first_lease k [] = none
first_lease k (l ∷ ls) = let rest = first_lease k ls in if lease_of k l then some l else rest

-- The first name that a lease gives the MAC.
unfoldable pub lease_name : Text → List DhcpEntry → Option Text
lease_name k [] = none
lease_name k (l ∷ ls) =
    let rest = lease_name k ls in if lease_of k l && is_set l.hostname then l.hostname else rest

abbrev pub name_or : Option Text → Option Text → Option Text
name_or own none = own
name_or own (some name) = if is_set own then own else some name

-- What the merge gives for a MAC: the ARP scan's device, else the first lease.
abbrev pub expected : Text → Option DeviceInfo → Option DhcpEntry → Option Text → Option Merged
expected k none none name = none
expected k none (some l) name =
    some (record { mac = k; ip = l.ip; hostname = name_or l.hostname name; source = dhcp })
expected k (some d) l name =
    some (record { mac = k; ip = d.ip_address; hostname = name_or d.hostname name; source = arp })

abbrev arp_entry : Text → DeviceInfo → Merged
arp_entry k d = record { mac = k; ip = d.ip_address; hostname = d.hostname; source = arp }

abbrev from_arp : Text → Option DeviceInfo → Option Merged → Option Merged
from_arp k none old = old
from_arp k (some d) old = some (arp_entry k d)

-- The leases of a MAC, one after the other.
abbrev after_leases : Text → List DhcpEntry → Option Merged → Option Merged
after_leases k [] old = old
after_leases k (l ∷ ls) old = after_leases k ls (if lease_of k l then some (enrich l old) else old)

-- A dict from MACs to entries of these MACs.
abbrev pub Keyed : Dict Merged → Type 0
Keyed merged = All (λ e. text_eq e.0 e.1.mac ≡ true) merged

put-Keyed :
    (k : Text) (m : Merged) (merged : Dict Merged)
    → text_eq k m.mac ≡ true
    → Keyed merged
    → Keyed (put k m merged)
unfolding put
put-Keyed k m [] h keyed = (h, tt)
put-Keyed k m (e ∷ merged) h keyed =
    ground (arith, put-Keyed k m merged h keyed.1, keyed, text_eq_iff e.0 k)

merge_arp-Keyed :
    (ds : List DeviceInfo) (merged : Dict Merged) → Keyed merged → Keyed (merge_arp ds merged)
unfolding merge_arp
merge_arp-Keyed [] merged keyed = keyed
merge_arp-Keyed (d ∷ ds) merged keyed =
    let mac = normalize_lease_mac d.mac_address in
    merge_arp-Keyed ds (if is_empty mac then merged else put mac (arp_entry mac d) merged)
      (ground (arith, keyed, put-Keyed mac (arp_entry mac d) merged (text_eq_refl mac) keyed))

get-Keyed :
    (k : Text) (merged : Dict Merged) (m : Merged)
    → Keyed merged
    → get k merged ≡ some m
    → text_eq k m.mac ≡ true
unfolding get
get-Keyed k [] m keyed h = ground arith
get-Keyed k (e ∷ merged) m keyed h =
    ground (arith, h, keyed, get-Keyed k merged m keyed.1, text_eq_iff e.0 k)

enrich-mac :
    (l : DhcpEntry) (merged : Dict Merged)
    → Keyed merged
    → text_eq l.mac (enrich l (get l.mac merged)).mac ≡ true
unfolding enrich
enrich-mac l merged keyed = at (get l.mac merged) refl
  where
    at : (old : Option Merged) → get l.mac merged ≡ old → text_eq l.mac (enrich l old).mac ≡ true
    at none h = text_eq_refl l.mac
    at (some m) h = ground (arith, get-Keyed l.mac merged m keyed h)

merge_dhcp-Keyed :
    (ls : List DhcpEntry) (merged : Dict Merged) → Keyed merged → Keyed (merge_dhcp ls merged)
unfolding merge_dhcp
merge_dhcp-Keyed [] merged keyed = keyed
merge_dhcp-Keyed (l ∷ ls) merged keyed =
    let entry = enrich l (get l.mac merged) in
    merge_dhcp-Keyed ls (if is_empty l.mac then merged else put l.mac entry merged)
      (ground (arith, keyed, put-Keyed l.mac entry merged (enrich-mac l merged keyed) keyed))

-- Every entry of the merge stands under its own MAC.
pub merge_arp_and_dhcp-Keyed :
    (ds : List DeviceInfo) (ls : List DhcpEntry) → Keyed (merge_arp_and_dhcp ds ls)
unfolding merge_arp_and_dhcp
merge_arp_and_dhcp-Keyed ds ls = merge_dhcp-Keyed ls (merge_arp ds []) (merge_arp-Keyed ds [] tt)
