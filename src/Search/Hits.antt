-- ===== src/Search/Hits.antt =====
-- The hits that a search returns (`SearchHit` of wks/services/search.py).
use wks.Common.{ℕ, String}
use wks.Common.Float.{Float}

pub record Hit (F : Float) : Type 0 where
  pub uri : String
  pub chunk_index : ℕ
  pub score : F.Number
  pub tokens : ℕ
  pub text : String
