-- ===== src/Search/Merge.antt =====
-- `rrf_merge` (wks/api/search/_rrf.py): reciprocal rank fusion of ranked lists. `text_of` is `str` of
-- a number. A sort with `reverse=True` keeps the order of equal scores.
pub mod Laws
use wks.Common.{
  ℕ, zero, suc, ◌+◌, ◌*◌, String, ◌<>◌, Bool, not, Option, none, some, List, [], ◌∷◌, string_eq,
  sort_by, take, if◌then◌else◌, is_some, nat_eq, ◌==◌,
}
use wks.Common.Dict.{Dict, lookup, insert, keys, has_key}
use wks.Common.Float.{Float}
use wks.Search.Hits.{Hit}

module _ (F : Float) (text_of : ℕ → String) where
  -- `f"{hit['uri']}:{hit['chunk_index']}"`
  abbrev pub hit_key : Hit F → String
  hit_key hit = hit.uri <> (":" <> text_of hit.chunk_index)

  -- `scores` and `docs`
  pub record Tally : Type 0 where
    pub scores : Dict String F.Number
    pub docs : Dict String (Hit F)

  -- `d.get(key, default)`
  abbrev pub get_or_zero : Dict String F.Number → String → F.Number
  get_or_zero d k = elim (lookup k d) [ none ↦ F.zero | some x ↦ x ]

  -- The dictionaries after the hit at a rank was counted.
  unfoldable pub counted : ℕ → Tally → ℕ → Hit F → Tally
  counted rrf_k t rank hit = record {
    scores =
        insert (hit_key hit)
          (F.add (get_or_zero t.scores (hit_key hit)) (F.of_ratio 1 (rrf_k + rank))) t.scores;
    docs = if has_key t.docs (hit_key hit) then t.docs else insert (hit_key hit) hit t.docs;
  }

  -- One hit of a ranked list; `none` is the `ZeroDivisionError` of `1.0 / (rrf_k + rank)`.
  unfoldable pub count_hit : ℕ → Tally → ℕ → Hit F → Option Tally
  count_hit rrf_k t rank hit = if (rrf_k + rank) == 0 then none else some (counted rrf_k t rank hit)

  unfoldable pub count_list : ℕ → Tally → ℕ → List (Hit F) → Option Tally
  count_list rrf_k t rank [] = some t
  count_list rrf_k t rank (hit ∷ hits) = elim (count_hit rrf_k t rank hit) [
    | none ↦ none
    | some t' ↦ count_list rrf_k t' (suc rank) hits
  ]

  unfoldable pub count_lists : ℕ → Tally → List (List (Hit F)) → Option Tally
  count_lists rrf_k t [] = some t
  count_lists rrf_k t (ranked ∷ more) = elim (count_list rrf_k t 0 ranked) [
    | none ↦ none
    | some t' ↦ count_lists rrf_k t' more
  ]

  -- `not scores[x] < scores[y]`, for the descending sort
  abbrev pub ranks_before : Dict String F.Number → String → String → Bool
  ranks_before scores x y = not (F.lt (get_or_zero scores x) (get_or_zero scores y))

  -- The list that is returned; `none` is the `KeyError` of `docs[key]`.
  unfoldable pub collect : Tally → List String → Option (List (Hit F))
  collect t [] = some []
  collect t (key ∷ more) = elim (lookup key t.docs) [
    | none ↦ none
    | some hit ↦ elim (collect t more) [
      | none ↦ none
      | some hits ↦ some (record hit { score = F.round 6 (get_or_zero t.scores key) } ∷ hits)
    ]
  ]

  unfoldable pub rrf_merge : List (List (Hit F)) → ℕ → ℕ → Option (List (Hit F))
  rrf_merge ranked_lists k rrf_k =
      elim (count_lists rrf_k (record { scores = []; docs = [] }) ranked_lists) [
        | none ↦ none
        | some t ↦ collect t (take (k * 3) (sort_by (ranks_before t.scores) (keys t.scores)))
      ]
