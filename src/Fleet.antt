-- ===== src/Fleet.antt =====
-- services/fleet/src/evoagent_fleet: the fleet control plane.
pub mod Models
pub mod Store
pub mod Orchestrator
mod Tests
