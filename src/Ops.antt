-- ===== src/Ops.antt =====
-- apps/server/ops: the safety limits of a meeting and the alerts of the operator.
pub mod Safety
pub mod Alerts
