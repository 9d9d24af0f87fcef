-- ===== src/Stdlib.antt =====
-- The parts of Go's standard library that the program's logic rests on, over bytes.
pub mod Bytes
pub mod Base64
pub mod Netip
pub mod NetipText
pub mod NetipShow
pub mod Rows
pub mod Sort
pub mod Sorted
pub mod Texts
pub mod Overlaps
pub mod Same
mod Tests
