-- ===== src/Scanner.antt =====
-- backend/services/device_scanner.py: the merging of the sources of a scan (`Sources`), the state
-- that a scan changes (`State`), its parts in the order of the code, and the whole
-- `NetworkDeviceService.scan_and_update` (`Scan`). What subprocesses, the router, the Deco client
-- and `ipaddress` answer are arguments.
pub mod Sources
pub mod State
pub mod Persist
pub mod Router
pub mod DecoClients
pub mod Transitions
pub mod Scan
pub mod Merging
pub mod Soundness
pub mod Presence
