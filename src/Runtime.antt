-- ===== src/Runtime.antt =====
-- services/runtime/src/evoagent_runtime: the local agent service.
pub mod Store
pub mod Records
pub mod Tools
pub mod Agent
pub mod Prompts
pub mod Evolution
mod Tests
