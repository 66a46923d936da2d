-- ===== src/Scanner/Presence.antt =====
-- Who is online after the transitions at the end of a scan, and after the scan.
mod Quiet
mod Settled
mod Scan
pub use Settled.{transitions-devices, Present, settle}
pub use Scan.{scan_and_update-Present}
