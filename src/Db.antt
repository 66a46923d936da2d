-- ===== src/Db.antt =====
-- backend/db.py over the schema of backend/migrations: the tables, and the repositories as actions
-- on them; `Links` has the statements on the links of Alexa devices that stand elsewhere. A row is
-- a record, a nullable column an `Option`, and time (`datetime.now`, CURRENT_TIMESTAMP) the text
-- of the moment of the call. An action raises what the constraints of the schema make SQLite
-- raise; failures of the disk or of locks are not modelled.
pub mod Schema
pub mod Devices
pub mod Groups
pub mod Links
pub mod Events
pub mod Alerts
pub mod Polling
pub mod Integrity
pub mod History
