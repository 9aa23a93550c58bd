-- ===== src/Ops.antt =====
-- What protects the operator's commands and alerts: ops/confirmations.py, ops/security.py and the
-- deduplication of ops/alert_router.py.
pub mod Confirmations
pub mod Limiter
pub mod Alerts
mod Tests
