-- ===== src/Control.antt =====
-- apps/control-plane/src/evoagent_os: the control plane.
pub mod Store
pub mod Idempotency
mod Tests
