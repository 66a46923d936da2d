-- ===== src/Scenarios/Network.antt =====
-- The theorems about scans, on the household.
use homesentinel.Prelude.{◌≡◌, refl, text_eq, none, any, false, for_each}
use homesentinel.Db.Integrity.{IsSound}
use homesentinel.Prelude.{order_desc, insert_desc, select, update, find}
use homesentinel.Db.Schema.{status_eq, event_type_allowed, alert_type_allowed}
use homesentinel.Db.Devices.{mark_offline, get_by_id, list_by_status, as_offline}
use homesentinel.Db.Events.{create_event, refuses_event}
use homesentinel.Db.Alerts.{create_alert_row, refuses_alert}
use homesentinel.Db.Polling.{update_last_scan}
use homesentinel.Events.{record_event, create_alert}
use homesentinel.Scanner.Sources.{merge_arp_and_dhcp, merge_arp, merge_dhcp}
use homesentinel.Scanner.State.{on_store, add_mac, record_device_event, event_and_alert}
use homesentinel.Scanner.Persist.{persist_all}
use homesentinel.Scanner.DecoClients.{
  deco_supplement, deco_nodes, see_nodes, name_node, fresh_macs, remember_deco_master, add_all,
  chester_check,
}
use homesentinel.Scanner.Transitions.{
  transitions, leave_all, arrive_all, leave, arrive, take_down, bring_up,
}
use homesentinel.Scanner.Scan.{scan_and_update, scan_body, count_online}
use homesentinel.Scanner.Soundness.{scan_and_update-IsSound}
use homesentinel.Scanner.Presence.{scan_and_update-Present, Present}
use homesentinel.Scanner.Transitions.{is_nil}
use homesentinel.Scenarios.{household-IsSound, environment, before_deco_scan, quiet_network}

scan_and_update-IsSound_example :
    IsSound (scan_and_update environment quiet_network before_deco_scan).store
scan_and_update-IsSound_example =
    scan_and_update-IsSound environment quiet_network before_deco_scan household-IsSound

scan_succeeds : (scan_and_update environment quiet_network before_deco_scan).results.error ≡ none
unfolding scan_and_update scan_body on_store count_online persist_all merge_arp_and_dhcp merge_arp
    merge_dhcp for_each deco_supplement deco_nodes see_nodes name_node fresh_macs
    remember_deco_master add_all add_mac chester_check transitions leave_all arrive_all leave arrive
    take_down bring_up mark_offline get_by_id list_by_status order_desc insert_desc select status_eq
    text_eq update as_offline any record_device_event event_and_alert record_event create_event
    refuses_event event_type_allowed create_alert create_alert_row refuses_alert alert_type_allowed
    update_last_scan find
scan_succeeds = refl

scan_saw_something :
    is_nil (scan_and_update environment quiet_network before_deco_scan).online_macs ≡ false
unfolding scan_and_update scan_body on_store count_online persist_all merge_arp_and_dhcp merge_arp
    merge_dhcp for_each deco_supplement deco_nodes see_nodes name_node fresh_macs
    remember_deco_master add_all add_mac chester_check transitions leave_all arrive_all leave arrive
    take_down bring_up mark_offline get_by_id list_by_status order_desc insert_desc select status_eq
    text_eq update as_offline any record_device_event event_and_alert record_event create_event
    refuses_event event_type_allowed create_alert create_alert_row refuses_alert alert_type_allowed
    update_last_scan find
scan_saw_something = refl

scan_and_update-Present_example :
    Present (scan_and_update environment quiet_network before_deco_scan)
scan_and_update-Present_example =
    scan_and_update-Present environment quiet_network before_deco_scan household-IsSound
      scan_succeeds scan_saw_something
