-- ===== src/Transform.antt =====
-- Transforms (wks/api/transform): the cache of their outputs, its pruning, and the choice of an engine.
pub mod Cache
pub mod Prune
pub mod Engines
