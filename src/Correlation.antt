-- ===== src/Correlation.antt =====
-- backend/services/correlation_service.py: `correlate_by_mac` with `_merge_device_data`, and
-- `sync_network_friendly_names_from_alexa` on the links that `get_alexa_links` gives.
pub mod Laws
pub mod Names
pub mod Pairs
use homesentinel.Prelude.{
  ℕ, suc, Text, text_eq, is_empty, is_set, Bool, true, false, not, ◌&&◌, ◌||◌, Option, none, some,
  List, [], ◌∷◌, ◌++◌, any, select, Dict, get, put, has, if◌then◌else◌, codes, length, Outcome, ok,
  raised,
}
use homesentinel.Db.Schema.{Store, Device, Status}
use homesentinel.Db.Devices.{update_device_metadata, Metadata, no_metadata}
use homesentinel.Mac.{normalize_mac_address, or_blank, strip}

-- A client dict of the Deco, with the keys that are read.
pub record Client : Type 0 where
  pub mac : Option Text
  pub mac_alias : Option Text
  pub name : Option Text
  pub name_alias : Option Text
  pub plain_name : Option Text

-- `x or y`
abbrev pub or_next : Option Text → Text → Text
or_next a b = if is_set a then or_blank a else b

abbrev pub client_mac : Client → Text
client_mac c = or_next c.mac (or_next c.mac_alias [])

abbrev pub client_name : Client → Text
client_name c = or_next c.name (or_next c.name_alias (or_next c.plain_name (codes "Unknown")))

-- The merged dict of `_merge_device_data`; its other columns are those of the device, which is the
-- raw data there.
pub record Pair : Type 0 where
  pub mac_address : Text
  pub deco_client_name : Text
  pub deco : Client
  pub lan : Device

-- `_merge_device_data`
unfoldable pub merge_device_data : Client → Device → Pair
merge_device_data c d = record {
  mac_address = normalize_mac_address d.mac_address;
  deco_client_name = client_name c;
  deco = c;
  lan = d;
}

-- `lan_mac_map`: a later device with the same address replaces an earlier one.
unfoldable pub lan_map : List Device → Dict Device → Dict Device
lan_map [] m = m
lan_map (d ∷ ds) m =
    lan_map ds (if is_empty d.mac_address then m else put (normalize_mac_address d.mac_address) d m)

-- What the first loop has gathered; the two sets of matched MACs are the same.
pub record Gathered : Type 0 where
  pub merged : List Pair
  pub matched : List Text

abbrev pub gather_found : Client → Option Device → Gathered → Gathered
gather_found c none g = g
gather_found c (some d) g = record {
  merged = g.merged ++ merge_device_data c d ∷ [];
  matched = normalize_mac_address (client_mac c) ∷ g.matched;
}

unfoldable pub gather : Dict Device → List Client → Gathered → Gathered
unfolding merge_device_data
gather m [] g = g
gather m (c ∷ cs) g = gather m cs (
    if is_empty (client_mac c)
    then g
    else gather_found c (get (normalize_mac_address (client_mac c)) m) g)

abbrev pub in_set : Text → List Text → Bool
in_set mac macs = any (text_eq mac) macs

pub record Correlated : Type 0 where
  pub merged_devices : List Pair
  pub unmatched_deco_clients : List Client
  pub unmatched_lan_devices : List Device

-- `correlate_by_mac`
unfoldable pub correlate_by_mac : List Client → List Device → Correlated
unfolding lan_map gather
correlate_by_mac clients devices =
    let g = gather (lan_map devices []) clients (record { merged = []; matched = [] }) in
    record {
      merged_devices = g.merged;
      unmatched_deco_clients =
          select
            (λ c.
              not (is_empty (client_mac c))
              && not (in_set (normalize_mac_address (client_mac c)) g.matched))
            clients;
      unmatched_lan_devices =
          select (λ d. not (in_set (normalize_mac_address d.mac_address) g.matched)) devices;
    }

-- A row of `get_alexa_links`.
pub record Link : Type 0 where
  pub network_device_id : Option Text
  pub alexa_name : Option Text
  pub network_name : Option Text

pub record Synced : Type 0 where
  pub updated : ℕ
  pub skipped_existing : ℕ
  pub skipped_missing : ℕ
  pub failed : ℕ

abbrev pub count_update : Outcome (Option Device) → Synced → Synced
count_update (ok (some d)) r = record r { updated = suc r.updated }
count_update (ok none) r = record r { failed = suc r.failed }
count_update (raised e) r = record r { failed = suc r.failed }

-- `update_device_metadata(id, friendly_name=name)`
abbrev pub rename : Text → Text → Text → Store → Outcome (Option Device) × Store
rename id name now s =
    update_device_metadata id (record no_metadata { friendly_name = some name }) now s

-- The body of the loop over the links.
unfoldable pub sync_link : Bool → Text → Link → Synced × Store → Synced × Store
sync_link overwrite_existing now l (r, s) =
    let id = strip (or_blank l.network_device_id) in
    let alexa_name = strip (or_blank l.alexa_name) in
    let network_name = strip (or_blank l.network_name) in
    if is_empty id || is_empty alexa_name
    then (record r { skipped_missing = suc r.skipped_missing }, s)
    else (if (not overwrite_existing && not (is_empty network_name))
          || text_eq network_name alexa_name
        then (record r { skipped_existing = suc r.skipped_existing }, s)
        else (count_update (rename id alexa_name now s).0 r, (rename id alexa_name now s).1))

unfoldable pub sync_links : Bool → Text → List Link → Synced × Store → Synced × Store
unfolding sync_link
sync_links overwrite_existing now [] acc = acc
sync_links overwrite_existing now (l ∷ ls) acc =
    sync_links overwrite_existing now ls (sync_link overwrite_existing now l acc)

abbrev pub none_synced : Synced
none_synced = record { updated = 0; skipped_existing = 0; skipped_missing = 0; failed = 0 }

-- `sync_network_friendly_names_from_alexa`
unfoldable pub sync_network_friendly_names_from_alexa :
    Bool → Text → List Link → Store → Synced × Store
unfolding sync_links
sync_network_friendly_names_from_alexa overwrite_existing now links s =
    sync_links overwrite_existing now links (none_synced, s)
