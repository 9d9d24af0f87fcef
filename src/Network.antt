-- ===== src/Network.antt =====
-- What the agent accepts and renders of networks: src/internal/agent/validation,
-- src/internal/agent/network and the rendering of src/internal/agent/profile.
pub mod Validation
pub mod Plan
pub mod Profiles
pub mod Disjoint
pub mod Prefixes
pub mod PlanLaws
mod Tests
