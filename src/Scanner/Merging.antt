-- ===== src/Scanner/Merging.antt =====
-- What a scan takes from which source: ARP before DHCP, the router before both.
pub mod Leases
pub mod Supplement
pub mod Router
pub use Leases.{last_arp, first_lease, lease_name, expected}
pub use Supplement.{any-scan_subnet, scan_subnet-Distinct, tool_devices}
pub use Router.{
  apply_chester_snapshot_online, apply_chester_snapshot-Allowed, is_ok-apply_chester_snapshot,
  Allowed, present_in, ip_at, parses, is_ok,
}
