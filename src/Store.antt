-- ===== src/Store.antt =====
-- The operations in the agent's database (src/internal/agent/repository/operation_store.go).
pub mod Tables
pub mod Reads
pub mod Creation
pub mod Operations
pub mod View
pub mod Active
pub mod Consistent
pub mod Acceptance
pub mod Journal
pub mod Loops
pub mod Mirror
pub mod Replay
pub mod Pages
mod Tests
