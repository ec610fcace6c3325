-- ===== src/Results.antt =====
-- server/results.go: the pages of a result, its totals and its filters.
pub mod Paging
pub mod Trim
pub mod Protection
pub mod Reclaim
pub mod Refine
pub mod Search
pub mod Dates
pub mod View
