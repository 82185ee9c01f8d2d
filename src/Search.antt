-- ===== src/Search.antt =====
-- wks/api/search and wks/services/search.py: merging, deduplication and the search service.
pub mod Hits
pub mod Dedupe
pub mod Merge
pub mod Service
