-- ===== src/Monitor.antt =====
-- wks/api/monitor: which paths are monitored, with which priority, the commands on the rules, the sync of
-- paths with the database, and the pruning of nodes.
pub mod Glob
pub mod Roots
pub mod Explain
pub mod Priority
pub mod Filter
pub mod Commands
pub mod Remote
pub mod Sync
pub mod Prune
