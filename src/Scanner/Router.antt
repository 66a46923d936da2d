-- ===== src/Scanner/Router.antt =====
-- What a router snapshot changes besides the merged devices: `_reconcile_deco_endpoint`,
-- `_update_deco_node_endpoints`, `_persist_deco_endpoint`, `_sync_ips_and_reservations`.
use homesentinel.Prelude.{
  ◌==◌, ℕ, Text, text_eq, is_empty, Bool, true, false, ◌&&◌, ◌||◌, not, Option, none, some, List,
  [], ◌∷◌, Dict, get, put, has, if◌then◌else◌, codes, Action, return, ◌>>=◌, ◌>>◌, for_each,
}
use homesentinel.Db.Schema.{Device}
use homesentinel.Db.Devices.{
  get_by_mac, update_current_ip, set_static_ip_reservation, list_all, ip_differs,
}
use homesentinel.Chester.{
  Neighbor, NetworkSnapshot, online_neighbors, ip_hints, reservation_hints, default_max_stale_age,
}
use homesentinel.Scanner.State.{World, Env, Deco, Endpoint, on_store, stamp}
use homesentinel.Scanner.Persist.{when}

-- `current_ips.update({m: n.ip for m, n in snapshot.online_neighbors().items()})`
unfoldable pub with_neighbor_ips : Dict Neighbor → Dict Text → Dict Text
with_neighbor_ips [] ips = ips
with_neighbor_ips ((mac, n) ∷ online) ips = with_neighbor_ips online (put mac n.ip ips)

unfoldable pub current_ips : ℕ → NetworkSnapshot → Dict Text
unfolding with_neighbor_ips
current_ips now snapshot =
    with_neighbor_ips (online_neighbors default_max_stale_age snapshot) (ip_hints now snapshot)

abbrev scheme_or_http : Text → Text
scheme_or_http s = if is_empty s then codes "http" else s

-- `f":{old.port}" if old.port else ""`
abbrev given_port : Option ℕ → Option ℕ
given_port none = none
given_port (some p) = if p == 0 then none else some p

unfoldable pub moved_endpoint : Endpoint → Text → Endpoint
moved_endpoint old ip = record {
  scheme = scheme_or_http old.scheme;
  hostname = ip;
  port = given_port old.port;
}

-- `_persist_deco_endpoint`: without stored credentials nothing is stored.
abbrev save_endpoint : Endpoint → Option Endpoint → Option Endpoint
save_endpoint new none = none
save_endpoint new (some old) = some new

unfoldable pub point_at : Text → Deco → Deco
unfolding moved_endpoint
point_at ip d = record d {
  local_endpoint = moved_endpoint d.local_endpoint ip;
  active_endpoint = if d.use_cloud then d.active_endpoint else moved_endpoint d.local_endpoint ip;
}

unfoldable pub reconcile_at : Deco → Option Text → World → World
unfolding point_at
reconcile_at d none w = w
reconcile_at d (some ip) w =
    if is_empty ip || text_eq d.local_endpoint.hostname ip then w else record w {
      deco = some (point_at ip d);
      saved_endpoint = save_endpoint (moved_endpoint d.local_endpoint ip) w.saved_endpoint;
    }

abbrev reconcile_for : Option Deco → Option Text → ℕ → NetworkSnapshot → World → World
reconcile_for none master now snapshot w = w
reconcile_for (some d) none now snapshot w = w
reconcile_for (some d) (some master) now snapshot w =
    reconcile_at d (get master (current_ips now snapshot)) w

-- `_reconcile_deco_endpoint`
unfoldable pub reconcile_deco_endpoint : ℕ → NetworkSnapshot → World → World
unfolding reconcile_at
reconcile_deco_endpoint now snapshot w = reconcile_for w.deco w.deco_master_mac now snapshot w

-- `{mac: current_ips[mac] for mac in self._deco_node_macs_cache if mac in current_ips}`
unfoldable pub endpoints_of : List Text → Dict Text → Dict Text
endpoints_of [] ips = []
endpoints_of (mac ∷ macs) ips =
    let rest = endpoints_of macs ips in
    elim (get mac ips) [ none ↦ rest | some ip ↦ (mac, ip) ∷ rest ]

abbrev set_node_endpoints : Dict Text → Deco → Deco
set_node_endpoints [] d = d
set_node_endpoints (e ∷ es) d = record d { node_endpoints = e ∷ es }

abbrev update_nodes : Option Deco → Dict Text → Option Deco
update_nodes none es = none
update_nodes (some d) es = some (set_node_endpoints es d)

-- `_update_deco_node_endpoints`
unfoldable pub update_deco_node_endpoints : ℕ → NetworkSnapshot → World → World
unfolding endpoints_of
update_deco_node_endpoints now snapshot w = record w {
  deco = update_nodes w.deco (endpoints_of w.deco_node_macs (current_ips now snapshot));
}

abbrev same_ip : Option Text → Option Text → Bool
same_ip none none = true
same_ip none (some b) = false
same_ip (some a) none = false
same_ip (some a) (some b) = text_eq a b

module _ (env : Env) where
  abbrev pub correct_ip : Text → Option Device → Action World Unit
  correct_ip ip none = return tt
  correct_ip ip (some d) =
      when (ip_differs d.current_ip ip)
        (on_store (update_current_ip d.device_id ip (stamp env)) >> return tt)

  -- The first loop: addresses of devices that are not present.
  unfoldable pub sync_ip : Dict Neighbor → Text × Text → Action World Unit
  unfolding on_store
  sync_ip online (mac, ip) =
      when (not (has mac online)) (do device ← on_store (get_by_mac mac); correct_ip ip device)

  abbrev pub mirror : Text → Text → Option Device → Action World Unit
  mirror mac ip none = return tt
  mirror mac ip (some d) =
      when (not d.static_ip_enabled || not (same_ip d.reserved_ip (some ip)))
        (on_store (set_static_ip_reservation mac true (some ip) (stamp env)) >> return tt)

  -- The second loop: the router's reservations are set.
  unfoldable pub sync_reservation : Text × Text → Action World Unit
  unfolding on_store
  sync_reservation (mac, ip) = do device ← on_store (get_by_mac mac); mirror mac ip device

  -- The third loop: flags without a reservation are cleared.
  unfoldable pub clear_flag : Dict Text → Device → Action World Unit
  unfolding on_store
  clear_flag reserved d =
      when (d.static_ip_enabled && not (has d.mac_address reserved))
        (on_store (set_static_ip_reservation d.mac_address false none (stamp env)) >> return tt)

  abbrev pub clear_flags : Dict Text → Action World Unit
  clear_flags [] w = return tt w
  clear_flags (r ∷ rs) w = for_each (list_all w.store) (clear_flag (r ∷ rs)) w

  -- `_sync_ips_and_reservations`
  unfoldable pub sync_ips_and_reservations : ℕ → NetworkSnapshot → Action World Unit
  unfolding sync_ip sync_reservation clear_flag for_each
  sync_ips_and_reservations now snapshot = do
    for_each (ip_hints now snapshot) (sync_ip (online_neighbors default_max_stale_age snapshot))
    for_each (reservation_hints snapshot.reservations []) sync_reservation
    clear_flags (reservation_hints snapshot.reservations [])
