-- ===== src/Deco.antt =====
-- backend/services/deco_service.py: `DecoService`, over a client of the Deco whose answers are
-- arguments. `_build_node_client_index`, which nothing calls, is
-- left out.
pub mod Values
pub mod Nodes
pub mod Service
pub mod Signal
pub mod Online
pub mod Shown
pub mod Wifi
pub mod Qos
