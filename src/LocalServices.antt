-- ===== src/LocalServices.antt =====
-- backend/services/local_service_monitor.py: `LocalServiceMonitor`. The output of lsof is given as
-- the listeners that `_listeners` reads from it; the health check and the command runner are
-- parameters.
pub mod State
pub mod Snapshot
pub mod Control
pub mod Record
