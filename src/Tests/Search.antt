-- ===== src/Tests/Search.antt =====
-- Runs of wks/api/search, and its theorems at concrete input.
use wks.Common.{
  ℕ, ◌*◌, ◌≤◌, String, ◌≡◌, refl, ◌⊎◌, some, List, [], ◌∷◌, arith, length, All, string_eq,
}
use wks.Tests.Monitor.{whole}
use wks.Search.Hits.{Hit}
use wks.Search.Dedupe.{dedupe_hits, dedupe_loop}
use wks.Search.Dedupe.Laws.{IsDeduped, IsKnown, dedupe_hits_lem}
use wks.Search.Merge.{rrf_merge}
use wks.Search.Merge.Laws.{rrf_merge_total}

abbrev same : String → String
same text = text

abbrev hit : String → ℕ → String → Hit whole
hit uri index text = record { uri = uri; chunk_index = index; score = 0; tokens = 2; text = text }

abbrev hits : List (Hit whole)
hits = hit "u" 0 "x" ∷ hit "v" 0 "x" ∷ hit "u" 1 "y" ∷ hit "w" 0 "z" ∷ []

abbrev kept : List (Hit whole)
kept = dedupe_hits whole same same hits 3

dedupe_runs : kept ≡ hit "u" 0 "x" ∷ hit "w" 0 "z" ∷ []
unfolding dedupe_hits dedupe_loop string_eq
dedupe_runs = refl

dedupe_hits_lem_example :
    IsDeduped whole same same 3 kept × ((3 ≤ length kept) ⊎ All (IsKnown whole same same kept) hits)
dedupe_hits_lem_example = dedupe_hits_lem whole same same hits 3 (omega arith)

abbrev digit : ℕ → String
digit n = "0"

rrf_merge_total_example :
    (merged : List (Hit whole)) × (rrf_merge whole digit (hits ∷ hits ∷ []) 1 60 ≡ some merged)
    × (length merged ≤ 1 * 3)
rrf_merge_total_example = rrf_merge_total whole digit (hits ∷ hits ∷ []) 1 60 (omega arith)
