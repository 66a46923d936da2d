-- ===== src/Db/Integrity.antt =====
-- The constraints of the schema as an invariant of the database (`IsSound`), and the statements of
-- backend/db.py against it.
mod Sound
pub mod Devices
pub mod Groups
pub mod Events
pub mod Links
pub mod Deletion
pub use Sound.*
