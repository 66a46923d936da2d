-- ===== src/Deco/Service.antt =====
-- `get_nodes_with_details`, `_sync_online_nodes_to_devices` and the node cache.
use homesentinel.Prelude.{
  ℕ, ◌+◌, ◌-◌, Text, text_eq, is_empty, lower, upper, remove_char, Bool, true, not, ◌&&◌, ◌==◌, ltb,
  Option, none, some, List, [], ◌∷◌, map, any, find, select, length, Dict, get, put, if◌then◌else◌,
  Outcome, ok, raised, external_error, and_then, codes,
}
use homesentinel.Mac.{strip, join_octets}
use homesentinel.Db.Schema.{Store, Device, online, offline, status_eq}
use homesentinel.Db.Devices.{list_all, mark_online}
use homesentinel.Deco.Values.{Value, text, Object, truthy, or_null, or_default}
use homesentinel.Deco.Nodes.{Formats, Client, Node, extract_client_details, enrich_node_data}

-- What `get_topology_local` gives: the nodes, and the clients of each node's address
pub record Topology : Type 0 where
  pub nodes : List Object
  pub node_clients : Dict (List Object)

-- A method of texts on a value that is none raises AttributeError.
unfoldable pub as_text : Value → Outcome Text
as_text (text s) = ok s
as_text _ = raised (external_error (codes "AttributeError"))

-- `raw.get("deviceMac") or raw.get("mac") or ""`
abbrev pub raw_mac : Object → Value
raw_mac raw =
    or_default (or_null (get (codes "deviceMac") raw))
      (or_default (or_null (get (codes "mac") raw)) (text []))

-- `{d["mac_address"].lower(): d for d in all_devices if d.get("mac_address")}`
unfoldable pub mac_to_device : List Device → Dict Device → Dict Device
mac_to_device [] found = found
mac_to_device (d ∷ ds) found =
    mac_to_device ds (if is_empty d.mac_address then found else put (lower d.mac_address) d found)

abbrev pub bare_mac : Text → Text
bare_mac s = remove_char b':' (remove_char b'-' (strip s))

abbrev pub mark_if_offline : Text → Option Device → Store → Store
mark_if_offline now none s = s
mark_if_offline now (some d) s =
    if status_eq d.status online then s else (mark_online d.device_id now s).1

abbrev pub sync_mac : Text → Dict Device → Text → Store → Store
sync_mac now devices mac s =
    if length (bare_mac mac) == 12
    then mark_if_offline now (get (lower (join_octets (bare_mac mac))) devices) s
    else s

abbrev pub text_or_blank : Outcome Text → Text
text_or_blank (ok s) = s
text_or_blank (raised e) = []

-- The loop of `_sync_online_nodes_to_devices`; an exception ends it and is swallowed.
unfoldable pub sync_nodes : Text → Dict Device → List Node → Store → Store
unfolding as_text
sync_nodes now devices [] s = s
sync_nodes now devices (n ∷ ns) s =
    let skipped = sync_nodes now devices ns s in
    let synced =
      sync_nodes now devices ns
        (sync_mac now devices (text_or_blank (as_text (raw_mac n.raw_data))) s) in
    if status_eq n.status online
    then elim (as_text (raw_mac n.raw_data)) [ ok mac ↦ synced | raised e ↦ s ]
    else skipped

-- `_sync_online_nodes_to_devices`, with a repository
unfoldable pub sync_online_nodes_to_devices : Text → List Node → Store → Store
unfolding list_all mac_to_device sync_nodes
sync_online_nodes_to_devices now ns s = sync_nodes now (mac_to_device (list_all s) []) ns s

-- `clients_by_node`, keyed by the `mac` of the nodes
unfoldable pub clients_by_node :
    Dict (List Object) → List Object → Dict (List Client) → Dict (List Client)
unfolding extract_client_details
clients_by_node by_mac [] found = found
clients_by_node by_mac (n ∷ ns) found =
    clients_by_node by_mac ns (elim (or_null (get (codes "mac") n)) [
      | text mac ↦ elim (get mac by_mac) [
        | none ↦ found
        | some cs ↦ put mac (map extract_client_details cs) found
      ]
      | _ ↦ found
    ])

-- `c.get("online", True)`
abbrev pub is_online_client : Object → Bool
is_online_client c = elim (get (codes "online") c) [ none ↦ true | some v ↦ truthy v ]

-- `mac.upper().replace("-", ":")`
unfoldable pub colon_mac : Text → Text
colon_mac [] = []
colon_mac (c ∷ s) = (if c == b'-' then b':' else c) ∷ colon_mac s

-- `nodes_with_clients`
unfoldable pub nodes_with_clients : Dict (List Object) → List Text
unfolding colon_mac
nodes_with_clients [] = []
nodes_with_clients ((mac, cs) ∷ rest) =
    let others = nodes_with_clients rest in
    if any is_online_client cs then colon_mac (upper mac) ∷ others else others

-- `enriched_nodes`; an exception ends the call.
unfoldable pub enrich_all : Formats → Dict (List Client) → List Object → Outcome (List Node)
unfolding enrich_node_data
enrich_all f by_node [] = ok []
enrich_all f by_node (d ∷ ds) =
    let rest = enrich_all f by_node ds in
    and_then (enrich_node_data f by_node d) (λ n. and_then rest (λ ns. ok (n ∷ ns)))

-- `(raw.get("deviceMac", "") or raw.get("mac", "")).upper().replace("-", ":")`
abbrev pub get_or_blank : Text → Object → Value
get_or_blank k d = elim (get k d) [ none ↦ text [] | some v ↦ v ]

unfoldable pub node_mac : Node → Outcome Text
unfolding as_text colon_mac
node_mac n =
    and_then
      (as_text (
        or_default (get_or_blank (codes "deviceMac") n.raw_data)
          (get_or_blank (codes "mac") n.raw_data)))
      (λ s. ok (colon_mac (upper s)))

abbrev pub set_online : Node → Node
set_online n = record n { status = online }

abbrev pub online_if : Bool → Node → Node
online_if b n = if b then set_online n else n

abbrev pub promote : List Text → Node → Outcome Node
promote macs n =
    if status_eq n.status offline
    then and_then (node_mac n) (λ mac. ok (online_if (any (text_eq mac) macs) n))
    else ok n

-- `if node_mac in nodes_with_clients: node["status"] = "online"`, on every offline node
unfoldable pub promote_all : List Text → List Node → Outcome (List Node)
unfolding node_mac
promote_all macs [] = ok []
promote_all macs (n ∷ ns) =
    let rest = promote_all macs ns in
    and_then (promote macs n) (λ m. and_then rest (λ ms. ok (m ∷ ms)))

abbrev pub is_offline_node : Node → Bool
is_offline_node n = status_eq n.status offline

unfoldable pub count_clients : Dict (List Object) → ℕ
count_clients [] = 0
count_clients ((mac, cs) ∷ rest) = length cs + count_clients rest

-- With more than ten clients, and all nodes offline but one, all count as online.
unfoldable pub promote_mesh : ℕ → List Node → List Node
promote_mesh clients ns =
    if ltb 10 clients && length (select is_offline_node ns) + 1 == length ns
    then map (λ n. if is_offline_node n then set_online n else n) ns
    else ns

-- The nodes of a topology, before they are synchronised and cached
unfoldable pub nodes_of : Formats → Topology → Outcome (List Node)
unfolding enrich_all clients_by_node promote_all nodes_with_clients promote_mesh count_clients
nodes_of f t = and_then (enrich_all f (clients_by_node t.node_clients t.nodes []) t.nodes) (λ ns.
    and_then (promote_all (nodes_with_clients t.node_clients) ns)
      (λ ms. ok (promote_mesh (count_clients t.node_clients) ms)))

-- The cache, of which the moments are seconds; the repository may be absent.
pub record DecoService : Type 0 where
  pub nodes_cache : Option (List Node)
  pub cache_timestamp : ℕ
  pub has_device_repo : Bool
  pub store : Store

abbrev pub filled : Option (List Node) → List Node
filled none = []
filled (some ns) = ns

-- `_is_cache_valid`: an empty list counts as no cache.
unfoldable pub is_cache_valid : ℕ → DecoService → Bool
is_cache_valid seconds d =
    not (length (filled d.nodes_cache) == 0) && ltb (seconds - d.cache_timestamp) 60

abbrev pub synchronise : Text → List Node → DecoService → DecoService
synchronise now ns d =
    if d.has_device_repo
    then record d { store = sync_online_nodes_to_devices now ns d.store }
    else d

abbrev pub refreshed :
    ℕ → Text → Outcome (List Node) → DecoService → Outcome (List Node) × DecoService
refreshed seconds now (raised e) d = (raised e, d)
refreshed seconds now (ok ns) d =
    (ok ns, record (synchronise now ns d) { nodes_cache = some ns; cache_timestamp = seconds })

-- `get_nodes_with_details`, with what the Deco would answer
unfoldable pub get_nodes_with_details :
    Formats → ℕ → Text → Outcome Topology → DecoService → Outcome (List Node) × DecoService
unfolding is_cache_valid nodes_of
get_nodes_with_details f seconds now answer d =
    if is_cache_valid seconds d
    then (ok (filled d.nodes_cache), synchronise now (filled d.nodes_cache) d)
    else refreshed seconds now (and_then answer (nodes_of f)) d

-- `get_node_by_id`
unfoldable pub get_node_by_id :
    Formats → ℕ → Text → Outcome Topology → Text → DecoService → Outcome (Option Node) × DecoService
unfolding get_nodes_with_details
get_node_by_id f seconds now answer node_id d =
    let r = get_nodes_with_details f seconds now answer d in
    (and_then r.0 (λ ns. ok (find (λ n. text_eq n.node_id node_id) ns)), r.1)
