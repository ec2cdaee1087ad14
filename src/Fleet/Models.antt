-- ===== src/Fleet/Models.antt =====
-- services/fleet/src/evoagent_fleet/models.py: what a client submits, and the checks that its
-- models make when they are built. The JSON objects (input, metadata, output) stay the text that
-- the store keeps of them. A float is an exact number in millionths, so `ge=0` holds of itself.
mod Fields
pub mod Dag
pub mod Specs
unfoldable pub use Fields.*
