-- ===== src/Deco/Online.antt =====
-- Nodes with clients are online, and synchronising them keeps the database sound.
use mathlib.Core.Path.{subst}
use homesentinel.Prelude.{
  ℕ, ◌+◌, ◌≡◌, refl, sym, ap, ◌∙◌, Text, text_eq, lower, Bool, true, false, ◌&&◌, Option, none,
  some, List, [], ◌∷◌, map, any, All, length, select, Dict, get, if◌then◌else◌, Outcome, ok, raised,
  Failure, and_then, arith, ltb, ◌==◌, Bool-cases, inl, inr, ◌⊎◌,
}
use homesentinel.Mac.{join_octets}
use homesentinel.Db.Schema.{Store, Device, online, status_eq}
use homesentinel.Db.Devices.{list_all}
use homesentinel.Db.Integrity.{IsSound}
use homesentinel.Db.Integrity.Devices.{mark_online-IsSound}
use homesentinel.Deco.Nodes.{Formats, Node}
use homesentinel.Deco.Service.{
  Topology, as_text, raw_mac, text_or_blank, mac_to_device, mark_if_offline, sync_mac, bare_mac,
  sync_nodes, sync_online_nodes_to_devices, nodes_with_clients, enrich_all, node_mac, set_online,
  online_if, promote, promote_all, is_offline_node, promote_mesh, count_clients, clients_by_node,
  nodes_of, DecoService, filled, is_cache_valid, synchronise, refreshed, get_nodes_with_details,
}

mark_if_offline-IsSound :
    (now : Text) (o : Option Device) (s : Store) → IsSound s → IsSound (mark_if_offline now o s)
mark_if_offline-IsSound now none s v = v
mark_if_offline-IsSound now (some d) s v = elim (Bool-cases (status_eq d.status online)) [
  | inl e ↦ rw e v
  | inr e ↦ rw e (mark_online-IsSound d.device_id now s v)
]

sync_mac-IsSound :
    (now : Text) (devices : Dict Device) (mac : Text) (s : Store)
    → IsSound s
    → IsSound (sync_mac now devices mac s)
sync_mac-IsSound now devices mac s v = elim (Bool-cases (length (bare_mac mac) == 12)) [
  | inl e ↦
      rw e (mark_if_offline-IsSound now (get (lower (join_octets (bare_mac mac))) devices) s v)
  | inr e ↦ rw e v
]

text_cases : (o : Outcome Text) → ((t : Text) × (o ≡ ok t)) ⊎ ((e : Failure) × (o ≡ raised e))
text_cases (ok t) = inl (t, refl)
text_cases (raised e) = inr (e, refl)

sync_nodes-IsSound :
    (now : Text) (devices : Dict Device) (ns : List Node) (s : Store)
    → IsSound s
    → IsSound (sync_nodes now devices ns s)
unfolding sync_nodes
sync_nodes-IsSound now devices [] s v = v
sync_nodes-IsSound now devices (n ∷ ns) s v =
    let after =
      sync_nodes-IsSound now devices ns
        (sync_mac now devices (text_or_blank (as_text (raw_mac n.raw_data))) s)
        (sync_mac-IsSound now devices (text_or_blank (as_text (raw_mac n.raw_data))) s v) in
    elim (Bool-cases (status_eq n.status online)) [
      | inr e ↦ rw e (sync_nodes-IsSound now devices ns s v)
      | inl e ↦ elim (text_cases (as_text (raw_mac n.raw_data))) [
        | inl (t, h) ↦ rw (e, h) after
        | inr (x, h) ↦ rw (e, h) v
      ]
    ]

synchronise-IsSound :
    (now : Text) (ns : List Node) (d : DecoService)
    → IsSound d.store
    → IsSound (synchronise now ns d).store
unfolding sync_online_nodes_to_devices
synchronise-IsSound now ns d v = elim (Bool-cases d.has_device_repo) [
  | inl e ↦ rw e (sync_nodes-IsSound now (mac_to_device (list_all d.store) []) ns d.store v)
  | inr e ↦ rw e v
]

refreshed-IsSound :
    (seconds : ℕ) (now : Text) (o : Outcome (List Node)) (d : DecoService)
    → IsSound d.store
    → IsSound (refreshed seconds now o d).1.store
refreshed-IsSound seconds now (ok ns) d v = synchronise-IsSound now ns d v
refreshed-IsSound seconds now (raised e) d v = v

-- Listing the nodes over a sound database, from the cache or from whatever the Deco answers, leaves
-- the database sound.
pub get_nodes_with_details-IsSound :
    (f : Formats) (seconds : ℕ) (now : Text) (answer : Outcome Topology) (d : DecoService)
    → IsSound d.store
    → IsSound (get_nodes_with_details f seconds now answer d).1.store
unfolding get_nodes_with_details
get_nodes_with_details-IsSound f seconds now answer d v =
    elim (Bool-cases (is_cache_valid seconds d)) [
      | inl e ↦ rw e (synchronise-IsSound now (filled d.nodes_cache) d v)
      | inr e ↦ rw e (refreshed-IsSound seconds now (and_then answer (nodes_of f)) d v)
    ]

-- A node whose address is among those with clients is not offline.
unfoldable pub IsShown : List Text → Node → Type 0
unfolding node_mac
IsShown macs n =
    (mac : Text) → node_mac n ≡ ok mac → any (text_eq mac) macs ≡ true → is_offline_node n ≡ false

from_ok : {A : Type 0} → A → Outcome A → A
from_ok a (ok b) = b
from_ok a (raised e) = a

ok-inj : {A : Type 0} (a b : A) → ok a ≡ ok b → a ≡ b
unfolding from_ok
ok-inj a b h = ap (from_ok a) h

not_raised : {A : Type 0} (e : Failure) (a : A) → ¬ (raised e ≡ ok a)
not_raised e a h = absurd (ground (arith, h))

not_offline-IsShown : (macs : List Text) (n : Node) → is_offline_node n ≡ false → IsShown macs n
unfolding IsShown
not_offline-IsShown macs n h mac e a = h

node_mac-online_if : (b : Bool) (n : Node) → node_mac (online_if b n) ≡ node_mac n
unfolding node_mac
node_mac-online_if true n = refl
node_mac-online_if false n = refl

online_if-IsShown :
    (macs : List Text) (n : Node) (mac : Text)
    → node_mac n ≡ ok mac
    → IsShown macs (online_if (any (text_eq mac) macs) n)
unfolding IsShown status_eq
online_if-IsShown macs n mac h mac' e a =
    let same = ok-inj mac' mac (sym e ∙ node_mac-online_if (any (text_eq mac) macs) n ∙ h) in
    rw (rw same at a) refl

promote-IsShown : (macs : List Text) (n m : Node) → promote macs n ≡ ok m → IsShown macs m
promote-IsShown macs n m h = elim (Bool-cases (is_offline_node n)) [
  | inr e ↦ subst (IsShown macs) (ok-inj n m (rw e at h)) (not_offline-IsShown macs n e)
  | inl e ↦ elim (text_cases (node_mac n)) [
    | inl (mac, k) ↦
        subst (IsShown macs) (ok-inj (online_if (any (text_eq mac) macs) n) m (rw (e, k) at h))
          (online_if-IsShown macs n mac k)
    | inr (x, k) ↦ absurd (not_raised x m (rw (e, k) at h))
  ]
]

and_then-ok :
    {A B : Type 0} (o : Outcome A) (f : A → Outcome B) (b : B)
    → and_then o f ≡ ok b
    → (a : A) × ((o ≡ ok a) × (f a ≡ ok b))
and_then-ok (ok a) f b h = (a, (refl, h))
and_then-ok (raised e) f b h = absurd (not_raised e b h)

promote_all-IsShown :
    (macs : List Text) (ns ms : List Node) → promote_all macs ns ≡ ok ms → All (IsShown macs) ms
unfolding promote_all
promote_all-IsShown macs [] ms h = subst (All (IsShown macs)) (ok-inj [] ms h) tt
promote_all-IsShown macs (n ∷ ns) ms h =
    let (m, (p, k)) =
      and_then-ok (promote macs n) (λ m. and_then (promote_all macs ns) (λ ms. ok (m ∷ ms))) ms h in
    let (rest, (q, r)) = and_then-ok (promote_all macs ns) (λ ms. ok (m ∷ ms)) ms k in
    subst (All (IsShown macs)) (ok-inj (m ∷ rest) ms r)
      (promote-IsShown macs n m p, promote_all-IsShown macs ns rest q)

IsShown-online :
    (macs : List Text) (n : Node)
    → IsShown macs n
    → IsShown macs (if is_offline_node n then set_online n else n)
unfolding status_eq
IsShown-online macs n s = elim (Bool-cases (is_offline_node n)) [
  | inl e ↦ rw e (not_offline-IsShown macs (set_online n) refl)
  | inr e ↦ rw e s
]

All-online :
    (macs : List Text) (ns : List Node)
    → All (IsShown macs) ns
    → All (IsShown macs) (map (λ n. if is_offline_node n then set_online n else n) ns)
All-online macs [] s = tt
All-online macs (n ∷ ns) s = (IsShown-online macs n s.0, All-online macs ns s.1)

promote_mesh-IsShown :
    (macs : List Text) (k : ℕ) (ns : List Node)
    → All (IsShown macs) ns
    → All (IsShown macs) (promote_mesh k ns)
unfolding promote_mesh
promote_mesh-IsShown macs k ns s =
    elim (Bool-cases (ltb 10 k && length (select is_offline_node ns) + 1 == length ns)) [
      | inl e ↦ rw e (All-online macs ns s)
      | inr e ↦ rw e s
    ]

-- Of the nodes that come of a topology without an exception, none is offline whose address is among
-- those with an online client.
pub nodes_of-IsShown :
    (f : Formats) (t : Topology) (ns : List Node)
    → nodes_of f t ≡ ok ns
    → All (IsShown (nodes_with_clients t.node_clients)) ns
unfolding nodes_of
nodes_of-IsShown f t ns h =
    let (es, (p, k)) =
      and_then-ok (enrich_all f (clients_by_node t.node_clients t.nodes []) t.nodes)
        (λ ns.
          and_then (promote_all (nodes_with_clients t.node_clients) ns)
            (λ ms. ok (promote_mesh (count_clients t.node_clients) ms)))
        ns h in
    let (ms, (q, r)) =
      and_then-ok (promote_all (nodes_with_clients t.node_clients) es)
        (λ ms. ok (promote_mesh (count_clients t.node_clients) ms)) ns k in
    subst (All (IsShown (nodes_with_clients t.node_clients)))
      (ok-inj (promote_mesh (count_clients t.node_clients) ms) ns r)
      (promote_mesh-IsShown (nodes_with_clients t.node_clients) (count_clients t.node_clients) ms
        (promote_all-IsShown (nodes_with_clients t.node_clients) es ms q))
