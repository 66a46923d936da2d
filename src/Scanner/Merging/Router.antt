-- ===== src/Scanner/Merging/Router.antt =====
-- What a router snapshot does to the merged devices.
use homesentinel.Prelude.{
  ℕ, ◌≡◌, refl, Text, text_eq, text_eq_iff, Bool, true, false, ◌&&◌, not, Option, none, some, List,
  [], ◌∷◌, All, Dict, get, put, get-put, has, DistinctKeys, put-DistinctKeys, get-none, All-has,
  any, arith, inl, inr, ◌⊎◌, Bool-cases, Outcome, ok, raised,
}
use homesentinel.Chester.{
  Neighbor, NetworkSnapshot, add_neighbor, collect_neighbors, online_neighbors,
  default_max_stale_age,
}
use homesentinel.Scanner.Sources.{
  DeviceInfo, DhcpEntry, Merged, Network, in_network, keep_unless, drop_absent, from_router,
  add_neighbors, after_drop, apply_chester_snapshot, merge_arp_and_dhcp,
}
use homesentinel.Scanner.Merging.Leases.{Keyed, merge_arp_and_dhcp-Keyed}

abbrev from_online : Text → Option Neighbor → Option Merged → Option Merged
from_online k none old = old
from_online k (some n) old = some (from_router n k old)

get-add_neighbors :
    (k : Text) (present : Dict Neighbor) (merged : Dict Merged)
    → DistinctKeys present
    → get k (add_neighbors present merged) ≡ from_online k (get k present) (get k merged)
unfolding add_neighbors get
get-add_neighbors k [] merged d = refl
get-add_neighbors k ((mac, n) ∷ present) merged d = ground (
  arith,
  get-add_neighbors k present (put mac (from_router n mac (get mac merged)) merged) d.1,
  get-put mac k (from_router n mac (get mac merged)) merged,
  text_eq_iff mac k,
  get-none mac present d.0,
)

collect-DistinctKeys :
    (limit : ℕ) (ns : List Neighbor) (present : Dict Neighbor)
    → DistinctKeys present
    → DistinctKeys (collect_neighbors limit ns present)
unfolding collect_neighbors add_neighbor
collect-DistinctKeys limit [] present d = d
collect-DistinctKeys limit (n ∷ ns) present d =
    collect-DistinctKeys limit ns (add_neighbor limit n present)
      (ground (arith, d, put-DistinctKeys n.mac n present d))

online_neighbors-DistinctKeys :
    (limit : ℕ) (s : NetworkSnapshot) → DistinctKeys (online_neighbors limit s)
unfolding online_neighbors
online_neighbors-DistinctKeys limit s = collect-DistinctKeys limit s.neighbors [] tt

abbrev pub ip_at : Text → Dict Merged → Option Text
ip_at k merged = elim (get k merged) [ none ↦ none | some m ↦ some m.ip ]

abbrev pub present_in : NetworkSnapshot → Dict Neighbor
present_in s = online_neighbors default_max_stale_age s

-- A device that the router sees is among the result, with the router's address.
pub apply_chester_snapshot_online :
    (merged r : Dict Merged) (s : NetworkSnapshot) (net : Option Network) (k : Text) (n : Neighbor)
    → apply_chester_snapshot merged s net ≡ ok r
    → get k (present_in s) ≡ some n
    → ip_at k r ≡ some n.ip
unfolding apply_chester_snapshot
apply_chester_snapshot_online merged r s net k n h seen =
    at (drop_absent net (present_in s) merged) h
  where
    at : (o : Outcome (Dict Merged)) → after_drop o (present_in s) ≡ ok r → ip_at k r ≡ some n.ip
    at (raised e) h' = ground arith
    at (ok kept) h' = ground (
      arith,
      seen,
      get-add_neighbors k (present_in s) kept
          (online_neighbors-DistinctKeys default_max_stale_age s),
    )

-- The router sees the device, or its address is outside the LAN (blank, or no network is known).
abbrev pub Allowed : Dict Neighbor → Option Network → Text × Merged → Type 0
Allowed present net e = (has e.0 present ≡ true) ⊎ (in_network net e.1.ip ≡ ok false)

keep-Allowed :
    (o : Outcome Bool) (present : Dict Neighbor) (net : Option Network) (e : Text × Merged)
    (rest : Outcome (Dict Merged)) (r : Dict Merged)
    → in_network net e.1.ip ≡ o
    → text_eq e.0 e.1.mac ≡ true
    → ((kept : Dict Merged) → rest ≡ ok kept → All (Allowed present net) kept)
    → keep_unless o (has e.1.mac present) e rest ≡ ok r
    → All (Allowed present net) r
keep-Allowed (raised x) present net e rest r at keyed tail h = ground arith
keep-Allowed (ok on_lan) present net e (raised x) r at keyed tail h = ground arith
keep-Allowed (ok on_lan) present net e (ok kept) r at keyed tail h =
    ground (arith, at, keyed, h, tail kept refl, text_eq_iff e.0 e.1.mac)

drop_absent-Allowed :
    (net : Option Network) (present : Dict Neighbor) (merged r : Dict Merged)
    → Keyed merged
    → drop_absent net present merged ≡ ok r
    → All (Allowed present net) r
unfolding drop_absent
drop_absent-Allowed net present [] r keyed h = ground arith
drop_absent-Allowed net present (e ∷ merged) r keyed h =
    keep-Allowed (in_network net e.1.ip) present net e (drop_absent net present merged) r refl
      keyed.0 (λ kept t. drop_absent-Allowed net present merged kept keyed.1 t) h

put-Allowed :
    (present : Dict Neighbor) (net : Option Network) (k : Text) (m : Merged) (merged : Dict Merged)
    → has k present ≡ true
    → All (Allowed present net) merged
    → All (Allowed present net) (put k m merged)
unfolding put
put-Allowed present net k m [] seen h = (inl seen, tt)
put-Allowed present net k m (e ∷ merged) seen h = elim (Bool-cases (text_eq e.0 k)) [
  | inl same ↦ rw same (inl (ground (arith, seen, text_eq_iff e.0 k)), h.1)
  | inr other ↦ rw other (h.0, put-Allowed present net k m merged seen h.1)
]

add_neighbors-Allowed :
    (present rest : Dict Neighbor) (net : Option Network) (merged : Dict Merged)
    → All (λ e. has e.0 present ≡ true) rest
    → All (Allowed present net) merged
    → All (Allowed present net) (add_neighbors rest merged)
unfolding add_neighbors
add_neighbors-Allowed present [] net merged seen h = h
add_neighbors-Allowed present ((mac, n) ∷ rest) net merged seen h =
    add_neighbors-Allowed present rest net (put mac (from_router n mac (get mac merged)) merged)
      seen.1 (put-Allowed present net mac (from_router n mac (get mac merged)) merged seen.0 h)

-- Where the snapshot applies, every device of the result is one that the router sees, or one whose
-- address is not on the router's LAN: a stale lease or ARP entry of the LAN does not survive.
pub apply_chester_snapshot-Allowed :
    (ds : List DeviceInfo) (ls : List DhcpEntry) (s : NetworkSnapshot) (net : Option Network)
    (r : Dict Merged)
    → apply_chester_snapshot (merge_arp_and_dhcp ds ls) s net ≡ ok r
    → All (Allowed (present_in s) net) r
unfolding apply_chester_snapshot
apply_chester_snapshot-Allowed ds ls s net r h =
    at (drop_absent net (present_in s) (merge_arp_and_dhcp ds ls)) refl h
  where
    at :
        (o : Outcome (Dict Merged))
        → drop_absent net (present_in s) (merge_arp_and_dhcp ds ls) ≡ o
        → after_drop o (present_in s) ≡ ok r
        → All (Allowed (present_in s) net) r
    at (raised e) same h' = ground arith
    at (ok kept) same h' =
        let fine =
          add_neighbors-Allowed (present_in s) (present_in s) net kept (All-has (present_in s)) (
            drop_absent-Allowed net (present_in s) (merge_arp_and_dhcp ds ls) kept
              (merge_arp_and_dhcp-Keyed ds ls) same) in
        ground (arith, h', fine)

abbrev pub parses : Option Network → Text → Bool
parses net ip = elim (in_network net ip) [ ok b ↦ true | raised e ↦ false ]

abbrev pub is_ok : {A : Type 0} → Outcome A → Bool
is_ok (ok a) = true
is_ok (raised e) = false

is_ok-keep_unless :
    (o : Outcome Bool) (seen : Bool) (e : Text × Merged) (rest : Outcome (Dict Merged))
    → is_ok (keep_unless o seen e rest) ≡ (is_ok o && is_ok rest)
is_ok-keep_unless (raised x) seen e rest = refl
is_ok-keep_unless (ok on_lan) seen e (raised x) = refl
is_ok-keep_unless (ok on_lan) seen e (ok kept) = ground arith

is_ok-drop_absent :
    (net : Option Network) (present : Dict Neighbor) (merged : Dict Merged)
    → is_ok (drop_absent net present merged) ≡ not (any (λ e. not (parses net e.1.ip)) merged)
unfolding drop_absent any
is_ok-drop_absent net present [] = refl
is_ok-drop_absent net present (e ∷ merged) = ground (
  arith,
  is_ok-keep_unless (in_network net e.1.ip) (has e.1.mac present) e
      (drop_absent net present merged),
  is_ok-drop_absent net present merged,
)

-- The snapshot applies without an exception exactly when every merged address can be tested for
-- being on the LAN.
pub is_ok-apply_chester_snapshot :
    (merged : Dict Merged) (s : NetworkSnapshot) (net : Option Network)
    → is_ok (apply_chester_snapshot merged s net) ≡ not (any (λ e. not (parses net e.1.ip)) merged)
unfolding apply_chester_snapshot
is_ok-apply_chester_snapshot merged s net =
    through (drop_absent net (present_in s) merged) (is_ok-drop_absent net (present_in s) merged)
  where
    through :
        (o : Outcome (Dict Merged))
        → is_ok o ≡ not (any (λ e. not (parses net e.1.ip)) merged)
        → is_ok (after_drop o (present_in s)) ≡ not (any (λ e. not (parses net e.1.ip)) merged)
    through (ok kept) h = h
    through (raised x) h = h
