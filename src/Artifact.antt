-- ===== src/Artifact.antt =====
-- The artifacts that are given out once: src/internal/agent/artifact/service.go and
-- src/internal/agent/repository/secret_store.go.
pub mod Tables
pub mod Service
pub mod Once
pub mod Reuse
pub mod Delivery
pub mod RoundTrip
mod Tests
