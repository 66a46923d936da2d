-- ===== src/Alexa.antt =====
-- backend/services/alexa_service.py: `AlexaService`. The answers of the client are arguments, in
-- which a key that may be absent is an option, and a present one holds a text.
pub mod Devices
pub mod Service
pub mod Commands
pub mod Outage
