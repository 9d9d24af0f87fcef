-- ===== src/Operation.antt =====
-- The durable operation engine (src/internal/agent/operation/engine.go).
pub mod State
pub mod Action
pub mod Step
pub mod Loops
pub mod Rollback
pub mod Plan
pub mod Engine
pub mod Preserve
pub mod StepRules
pub mod EngineRules
pub mod Transition
pub mod Triple
pub mod Ends
pub mod Commit
pub mod Outcomes
pub mod Results
pub mod Recovered
pub mod Unblocked
pub mod Guarantees
pub mod Stuck
pub mod Retry
mod Tests
pub mod Paths
pub mod History
