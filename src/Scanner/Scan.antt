-- ===== src/Scanner/Scan.antt =====
-- `NetworkDeviceService.scan_and_update`.
use homesentinel.Prelude.{
  ℕ, Bool, true, false, Option, none, some, List, [], Dict, Action, Outcome, ok, Failure, return,
  ◌>>=◌, ◌>>◌, attempt, length,
}
use homesentinel.Db.Polling.{update_last_scan}
use homesentinel.Chester.{NetworkSnapshot}
use homesentinel.Scanner.Sources.{
  DeviceInfo, DhcpEntry, Merged, Network, merge_arp_and_dhcp, apply_chester_snapshot,
}
use homesentinel.Scanner.State.{World, Results, Env, on_store, stamp, count_result}
use homesentinel.Scanner.Persist.{persist_all, when}
use homesentinel.Scanner.Router.{
  reconcile_deco_endpoint, update_deco_node_endpoints, sync_ips_and_reservations,
}
use homesentinel.Scanner.DecoClients.{
  DecoClient, DecoNode, ChesterStatus, deco_supplement, deco_nodes, chester_check,
}
use homesentinel.Scanner.Transitions.{transitions}

-- What the outside answers in one scan. `snapshot` is `none` without a source or where it fails.
pub record Inputs : Type 0 where
  pub discovered : List DeviceInfo
  pub leases : List DhcpEntry
  pub snapshot : Option NetworkSnapshot
  pub network : Option Network
  pub seconds : ℕ
  pub clients : Outcome (List DecoClient)
  pub nodes : Outcome (List DecoNode)
  pub chester_status : Outcome (Option ChesterStatus)

abbrev pub empty_results : Results
empty_results = record {
  devices_found = 0;
  devices_added = 0;
  devices_updated = 0;
  devices_offline = 0;
  deco_online = 0;
  dhcp_devices = 0;
  warning = false;
  error = none;
}

abbrev pub do_to : (World → World) → Action World Unit
do_to f w = (ok tt, f w)

abbrev pub merged_with : Inputs → Option NetworkSnapshot → Action World (Dict Merged)
merged_with i none w = (ok (merge_arp_and_dhcp i.discovered i.leases), w)
merged_with i (some s) w =
    (apply_chester_snapshot (merge_arp_and_dhcp i.discovered i.leases) s i.network, w)

abbrev pub with_snapshot :
    (NetworkSnapshot → Action World Unit) → Option NetworkSnapshot → Action World Unit
with_snapshot f none = return tt
with_snapshot f (some s) = f s

abbrev pub has_deco : World → Bool
has_deco w = elim w.deco [ none ↦ false | some d ↦ true ]

abbrev pub if_deco : Action World Unit → Action World Unit
if_deco m w = when (has_deco w) m w

-- `scan_results["devices_found"] = len(online_macs)`
unfoldable pub count_online : Action World Unit
count_online w =
    (ok tt, record w { results = record w.results { devices_found = length w.online_macs } })

module _ (env : Env) (i : Inputs) where
  -- The body of the outer `try`.
  unfoldable pub scan_body : Action World Unit
  unfolding on_store count_online
  scan_body = do
    count_result (λ r. record r { dhcp_devices = length i.leases })
    merged ← merged_with i i.snapshot
    with_snapshot (λ s. do_to (reconcile_deco_endpoint i.seconds s)) i.snapshot
    with_snapshot (λ s. do_to (update_deco_node_endpoints i.seconds s)) i.snapshot
    count_result (λ r. record r { devices_found = length merged })
    persist_all env merged
    with_snapshot (λ s. sync_ips_and_reservations env i.seconds s) i.snapshot
    if_deco (deco_supplement env i.clients)
    if_deco (deco_nodes env i.nodes)
    chester_check env i.chester_status
    count_online
    transitions env
    on_store (update_last_scan (stamp env))
    return tt

  abbrev pub note_error : Failure → Action World Unit
  note_error e = count_result (λ r. record r { error = some e })

  -- `scan_and_update`
  unfoldable pub scan_and_update : World → World
  unfolding scan_body
  scan_and_update w =
      (attempt scan_body note_error (record w { online_macs = []; results = empty_results })).1
