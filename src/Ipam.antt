-- ===== src/Ipam.antt =====
-- Address allocation (internal/agent/ipam/allocator.go).
pub mod Allocator
pub mod Accepted
pub mod Pools
mod Tests
