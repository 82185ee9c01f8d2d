-- ===== src/Link.antt =====
-- Components of wks/api/link: pruning the edges between nodes.
pub mod Prune
