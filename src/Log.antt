-- ===== src/Log.antt =====
-- The log file (wks/api/log): its entries, pruning, reading with retention, and the summary that the
-- status shows.
pub mod Entry
pub mod Prune
pub mod Reading
pub mod Summary
pub mod Status
