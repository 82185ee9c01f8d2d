-- ===== src/Search/Dedupe.antt =====
-- `_dedupe_hits` (wks/api/search/_dedupe_hits.py). `canonical` is `str(URI.from_any(uri))`, and
-- `digest` the hexadecimal SHA-256 of a text.
pub mod Laws
use wks.Common.{
  ℕ, String, Bool, List, [], ◌∷◌, ◌++◌, ◌||◌, contains, string_eq, leb, length, if◌then◌else◌,
}
use wks.Common.Float.{Float}
use wks.Search.Hits.{Hit}

module _ (F : Float) (canonical digest : String → String) where
  abbrev pub canonical_hit : Hit F → Hit F
  canonical_hit hit = record hit { uri = canonical hit.uri }

  -- The loop; a set is the list of what was added to it.
  unfoldable pub dedupe_loop :
      ℕ → List (Hit F) → List (Hit F) → List String → List String → List (Hit F)
  dedupe_loop k [] deduped seen_uris seen_hashes = deduped
  dedupe_loop k (hit ∷ hits) deduped seen_uris seen_hashes =
      let canonical_uri = canonical hit.uri in
      let text_hash = digest hit.text in
      let deduped' = deduped ++ canonical_hit hit ∷ [] in
      let skip = dedupe_loop k hits deduped seen_uris seen_hashes in
      let more =
        dedupe_loop k hits deduped' (canonical_uri ∷ seen_uris) (text_hash ∷ seen_hashes) in
      if contains seen_uris canonical_uri || contains seen_hashes text_hash
      then skip
      else if leb k (length deduped')
      then deduped'
      else more

  unfoldable pub dedupe_hits : List (Hit F) → ℕ → List (Hit F)
  unfolding dedupe_loop
  dedupe_hits hits k = dedupe_loop k hits [] [] []
