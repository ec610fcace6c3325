-- ===== src/Scan.antt =====
-- The decisions of a scan in server/scan.go, server/duplicates.go and server/handlers.go.
pub mod Copies
pub mod Caps
pub mod Roots
pub mod Tools
pub mod Junk
pub mod Bounded
pub mod Spill
pub mod Windows
