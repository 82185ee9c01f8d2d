-- ===== src/Tests.antt =====
-- Runs of the definitions, and the theorems at concrete input.
mod Monitor
mod Index
mod Search
mod Log
mod Uri
mod Transform
mod Daemon
mod Commands
mod Remote
mod Service
mod Sync
mod Similar
mod Indexing
mod Control
mod Pruning
