-- ===== src/Similar.antt =====
-- Similar documents (wks/api/similar/_similar_helpers.py): the matching of chunks, the candidates, and
-- their labels, scores and metrics.
pub mod Matching
pub mod Candidates
pub mod Labels
pub mod Metrics
