-- ===== src/Similar/Matching.antt =====
-- `_greedy_matches` and `_order_consistency` of wks/api/similar/_similar_helpers.py. The similarity
-- matrix is the list of its rows.
pub mod Laws
use wks.Common.{
  ℕ, zero, suc, ◌-◌, Bool, true, false, not, ◌||◌, List, [], ◌∷◌, ◌++◌, ◌==◌, nat_eq, if◌then◌else◌,
  contains, sort_by, length, leb, map,
}
use wks.Common.Float.{Float}

module _ (F : Float) where
  open F use {Number}

  -- A score with its row and its column.
  pub record Pair : Type 0 where
    pub score : Number
    pub query_idx : ℕ
    pub candidate_idx : ℕ

  -- The pairs of a row from a column on, which reach the threshold.
  unfoldable pub row_pairs : Number → ℕ → ℕ → List Number → List Pair
  row_pairs threshold row_idx col_idx [] = []
  row_pairs threshold row_idx col_idx (score ∷ scores) =
      let rest = row_pairs threshold row_idx (suc col_idx) scores in
      if F.le threshold score
      then record { score = score; query_idx = row_idx; candidate_idx = col_idx } ∷ rest
      else rest

  unfoldable pub all_pairs : Number → ℕ → List (List Number) → List Pair
  all_pairs threshold row_idx [] = []
  all_pairs threshold row_idx (row ∷ rows) =
      row_pairs threshold row_idx 0 row ++ all_pairs threshold (suc row_idx) rows

  -- The loop over the sorted pairs; a set is the list of what was added to it.
  unfoldable pub take_pairs : List Pair → List ℕ → List ℕ → List Pair → List Pair
  take_pairs [] used_query used_candidate matches = matches
  take_pairs (p ∷ ps) used_query used_candidate matches =
      let skip = take_pairs ps used_query used_candidate matches in
      let more =
        take_pairs ps (p.query_idx ∷ used_query) (p.candidate_idx ∷ used_candidate)
          (matches ++ p ∷ []) in
      if contains used_query p.query_idx || contains used_candidate p.candidate_idx
      then skip
      else more

  unfoldable pub greedy_matches : List (List Number) → Number → List Pair
  greedy_matches similarity threshold =
      take_pairs
        (sort_by (λ (a b : Pair). not (F.lt a.score b.score)) (all_pairs threshold 0 similarity)) []
        [] []

  -- `sum(1 for left, right in pairwise(positions) if right >= left)`
  unfoldable pub increases : List ℕ → ℕ
  increases [] = 0
  increases (x ∷ []) = 0
  increases (x ∷ y ∷ rest) = let more = increases (y ∷ rest) in if leb x y then suc more else more

  -- `_order_consistency`; `chunk_index` is the one of a candidate's document.
  unfoldable pub order_consistency : (ℕ → ℕ) → List Pair → Number
  order_consistency chunk_index [] = F.zero
  order_consistency chunk_index (p ∷ []) = F.one
  order_consistency chunk_index (p ∷ q ∷ rest) =
      let ordered = sort_by (λ (a b : Pair). leb a.query_idx b.query_idx) (p ∷ q ∷ rest) in
      let positions = map (λ (m : Pair). chunk_index m.candidate_idx) ordered in
      F.of_ratio (increases positions) (length positions - 1)
