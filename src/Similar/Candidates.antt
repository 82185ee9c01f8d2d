-- ===== src/Similar/Candidates.antt =====
-- `_resolve_semantic_index` and `_collect_candidate_scores` of wks/api/similar/_similar_helpers.py.
pub mod Laws
use wks.Common.{
  ℕ, zero, suc, ◌+◌, String, Bool, true, false, ◌||◌, Option, none, some, List, [], ◌∷◌, ◌==◌,
  string_eq, contains, if◌then◌else◌, leb, is_some,
}
use wks.Common.Dict.{Dict, lookup, insert}
use wks.Common.Float.{Float}
use wks.Common.Text.{is_empty}
use wks.Search.Service.{IndexSpec, IndexConfig}

-- A configured index that has a model.
abbrev pub with_model : String → Option IndexSpec → Option (String × IndexSpec)
with_model name none = none
with_model name (some spec) = if is_some spec.embedding_model then some (name, spec) else none

-- The loop over the indexes.
unfoldable pub first_with_model : Dict String IndexSpec → Option (String × IndexSpec)
first_with_model [] = none
first_with_model ((name, spec) ∷ rest) =
    if is_some spec.embedding_model then some (name, spec) else first_with_model rest

abbrev pub or_else {ℓ} : {A : Type ℓ} → Option A → Option A → Option A
or_else none b = b
or_else (some a) b = some a

-- `requested_index or similar_config.default_index or ""`
abbrev pub selected_index : Option String → String → String
selected_index none default_index = default_index
selected_index (some name) default_index = if is_empty name then default_index else name

-- The index of the configuration; a pair of `None` is `none`.
unfoldable pub resolve_semantic_index :
    Option IndexConfig → String → Option String → Option (String × IndexSpec)
resolve_semantic_index none default_index requested_index = none
resolve_semantic_index (some cfg) default_index requested_index =
    let selected = selected_index requested_index default_index in
    let of_default =
      if is_empty cfg.default_index
      then none
      else with_model cfg.default_index (lookup cfg.default_index cfg.indexes) in
    if is_empty selected
    then or_else (with_model "semantic" (lookup "semantic" cfg.indexes))
        (or_else of_default (first_with_model cfg.indexes))
    else with_model selected (lookup selected cfg.indexes)

-- `canonical` is `_canonical_uri`, `query_uri` the address of the query's document, and `per_chunk` at
-- least 1.
module _ (F : Float) (canonical : String → String) (query_uri : String) (per_chunk : ℕ)
    (rrf_k : F.Number) where
  open F use {Number}

  abbrev pub score_of : String → Dict String Number → Number
  score_of uri scores = elim (lookup uri scores) [ none ↦ F.zero | some x ↦ x ]

  -- `scores[uri] += 1.0 / (rrf_k + rank)`
  abbrev pub add_rank : String → ℕ → Dict String Number → Dict String Number
  add_rank uri rank scores =
      insert uri (F.add (score_of uri scores) (F.div F.one (F.add rrf_k (F.of_ratio rank 1))))
        scores

  -- The loop over the documents in their order of similarity to a chunk, each with its score.
  unfoldable pub rank_documents :
      List (String × Number) → List String → ℕ → Dict String Number → Dict String Number
  rank_documents [] seen_uris rank scores = scores
  rank_documents ((raw_uri, raw_score) ∷ docs) seen_uris rank scores =
      let uri = canonical raw_uri in
      let scores' = add_rank uri (suc rank) scores in
      let skip = rank_documents docs seen_uris rank scores in
      let more = rank_documents docs (uri ∷ seen_uris) (suc rank) scores' in
      if F.le raw_score F.zero || uri == query_uri || contains seen_uris uri
      then skip
      else if leb per_chunk (suc rank)
      then scores'
      else more

  -- The loop over the chunks of the query; `rankings` has the documents for each chunk.
  unfoldable pub collect_candidate_scores :
      List (List (String × Number)) → Dict String Number → Dict String Number
  collect_candidate_scores [] scores = scores
  collect_candidate_scores (docs ∷ rankings) scores =
      collect_candidate_scores rankings (rank_documents docs [] 0 scores)
