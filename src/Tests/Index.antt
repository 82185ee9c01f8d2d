-- ===== src/Tests/Index.antt =====
-- Runs of wks/api/index, and its theorems at concrete input.
use wks.Common.{◌+◌, ◌≤◌, ◌<◌, String, ◌≡◌, some, List, [], ◌∷◌, arith}
use wks.Index.Chunker.{Chunk, chunk_lines, next_start}
use wks.Index.Chunker.Windows.{next_start_bounds, cost_before}
use wks.Index.Chunker.Chunks.{chunk_lines_total, AreChunks}

abbrev lines : List String
lines = "a b\n" ∷ "c d\n" ∷ "\n" ∷ "e" ∷ []

chunk_lines_total_example :
    (result : List Chunk) × (chunk_lines 3 1 lines "u" ≡ some result)
    × AreChunks 3 lines "u" 0 result
chunk_lines_total_example = chunk_lines_total 3 1 lines "u"

next_start_bounds_example :
    (0 < next_start 3 2 (2 ∷ 2 ∷ 1 ∷ []) 0 2)
    × (next_start 3 2 (2 ∷ 2 ∷ 1 ∷ []) 0 2 ≤ 2)
    × (cost_before (2 ∷ 2 ∷ 1 ∷ []) 2
        ≤ 2 + cost_before (2 ∷ 2 ∷ 1 ∷ []) (next_start 3 2 (2 ∷ 2 ∷ 1 ∷ []) 0 2))
next_start_bounds_example = next_start_bounds (2 ∷ 2 ∷ 1 ∷ []) 3 2 0 2 (omega arith)
