-- ===== src/Daemon.antt =====
-- The daemon (wks/api/daemon): what it collects of the events of the file system, what it syncs, and how it
-- is started and stopped.
pub mod Events
pub mod Control
