-- ===== src/Lib.antt =====
-- Verification of the backend of HomeSentinel, the monitor of a home network.
--
-- The backend scans the network, keeps what it learns in an SQLite database, records events and
-- alerts, and deletes them after a retention period. Parts and files:
--
-- - Db: the tables and the six repositories of backend/db.py over the schema of backend/migrations.
--   A table is a list of rows in the order of insertion; UNIQUE, CHECK and FOREIGN KEY refuse a write
--   by raising an integrity error, and ON DELETE CASCADE is written out. `Db.Links` has the
--   writes of `alexa_device_links`, which backend/routes/alexa.py and the correlation make.
--   `Db.Integrity` holds the invariant, `Db.History` any sequence of writes.
-- - Mac: the five normalisations of MAC addresses of backend/utils.py and backend/services.
-- - Events: `EventService` of backend/services/event_service.py; `Presence` has `get_presence_history`.
-- - Retention: backend/services/retention_cleanup.py and retention_scheduler.py.
-- - Oui: backend/services/oui_service.py.
-- - Chester: `NetworkSnapshot` of backend/services/chester_network.py, and its parsers of leases and
--   reservations.
-- - Scanner: backend/services/device_scanner.py. `Sources` merges ARP, DHCP and the router's view,
--   `State` holds the world of a scan, `Persist`, `Router`, `DecoClients` and `Transitions` are the
--   parts of `NetworkDeviceService.scan_and_update`, and `Scan` puts them together in the order of the
--   code. `Merging`, `Soundness` and `Presence` hold the theorems.
-- - Correlation: `correlate_by_mac` and `sync_network_friendly_names_from_alexa` of
--   backend/services/correlation_service.py.
-- - Poller: backend/services/polling_service.py, a turn of its loop as a step around a scan.
-- - Tmp: the packets of the TMP protocol and the client after its authentication, of
--   backend/tmp_client.py. `Socket` reads a packet, with as many rounds as bytes to wait for.
-- - LocalServices: backend/services/local_service_monitor.py.
-- - Sse: the queues of backend/routes/sse.py; `Steps` has its calls as a step relation.
-- - Auth: backend/middleware/auth.py.
-- - Settings: the settings of backend/utils.py, encrypted and plain.
-- - Insights: of backend/services/digest_service.py and health_service.py, what counts devices and
--   events.
-- - Search: backend/services/search_service.py.
-- - Deco: backend/services/deco_service.py, over JSON values; `Service` lists the nodes, `Wifi` reads
--   and writes the settings of the network.
-- - Alexa: backend/services/alexa_service.py, with the answers of the client as arguments.
-- - SpeedTests: the tables of backend/services/speedtest_service.py and their queries.
-- - Scenarios: small inputs on which the theorems are run.
-- - Prelude: texts as lists of code points, tables, dicts, outcomes of calls that may raise.
--
-- A call that may raise is a function from a state to an outcome and a state, so that what
-- happened before an exception stays. The clock, `uuid4`, `uuid5`, base64 decoding, `ipaddress`,
-- and what subprocesses, the router and the Deco answer are arguments, and so is Python's
-- floating-point arithmetic in `Deco`, where a floating-point number is what the code asks of it.
-- Loops are over lists, but for the reading of a packet, whose rounds `Tmp.Ends` shows to be
-- enough. Texts are ASCII where their case is changed.
--
-- Not modelled: HTTP clients and the routes other than those above, subprocesses and the parsing of
-- their output but for the leases and reservations, connections and migrations of the database,
-- logging, and the times that a scan reports.
pub mod Prelude
pub mod Mac
pub mod Db
pub mod Events
pub mod Retention
pub mod Oui
pub mod Chester
pub mod Scanner
pub mod Correlation
pub mod Poller
pub mod Tmp
pub mod SpeedTests
pub mod Alexa
pub mod Deco
pub mod Search
pub mod Auth
pub mod Settings
pub mod Insights
pub mod Sse
pub mod LocalServices
pub mod Scenarios
