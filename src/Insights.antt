-- ===== src/Insights.antt =====
-- What the dashboards compute of devices and events: backend/services/digest_service.py and
-- backend/services/health_service.py. The numbers from speed tests and the scores, which are
-- floating-point, are not modelled.
pub mod Digest
pub mod Streak
