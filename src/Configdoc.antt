-- ===== src/Configdoc.antt =====
-- The line-preserving wg-quick document (internal/agent/configdoc/document.go).
pub mod Nodes
pub mod Peers
pub mod Analyze
pub mod Document
pub mod Edit
pub mod Lossless
pub mod Lines
pub mod Apart
pub mod PeerText
pub mod Appends
mod Tests
