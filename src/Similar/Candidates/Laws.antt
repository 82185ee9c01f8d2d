-- ===== src/Similar/Candidates/Laws.antt =====
-- The choice of an index and of the candidates (wks/api/similar/_similar_helpers.py).
use wks.Common.{
  ℕ, suc, ◌+◌, ◌*◌, ◌≤◌, ◌<◌, String, ◌≡◌, refl, true, false, ◌||◌, Option, none, some, List, [],
  ◌∷◌, ◌==◌, string_eq, contains, leb, is_some, arith, length, Bool-cases, inl, inr,
}
use wks.Common.Dict.{Dict, lookup, insert, keys, has_key, lookup-insert}
use wks.Common.Float.{Float}
use wks.Search.Service.{IndexSpec}
use wks.Similar.Candidates.{score_of, add_rank, rank_documents, collect_candidate_scores}

-- An index that may serve: it has a model, and it stands under its name.
abbrev pub IsServing : Dict String IndexSpec → Option (String × IndexSpec) → Type 0
IsServing indexes none = Unit
IsServing indexes (some (name, spec)) =
    (is_some spec.embedding_model ≡ true) × (has_key indexes name ≡ true)

module _ (F : Float) (canonical : String → String) (query_uri : String) (per_chunk : ℕ)
    (rrf_k : F.Number) where
  length-keys-insert :
      (k : String) (v : F.Number) (d : Dict String F.Number)
      → length (keys (insert k v d)) ≤ suc (length (keys d))
  unfolding keys insert
  length-keys-insert k v [] = omega arith
  length-keys-insert k v ((j, w) ∷ d) = ground (arith, length-keys-insert k v d)

  length-keys-add_rank :
      (uri : String) (rank : ℕ) (scores : Dict String F.Number)
      → length (keys (add_rank F canonical query_uri per_chunk rrf_k uri rank scores))
        ≤ suc (length (keys scores))
  length-keys-add_rank uri rank scores = length-keys-insert uri _ scores

  -- A chunk adds at most `per_chunk` candidates.
  length-rank_documents :
      (docs : List (String × F.Number)) (seen_uris : List String) (rank : ℕ)
      (scores : Dict String F.Number)
      → rank < per_chunk
      → length
            (keys (rank_documents F canonical query_uri per_chunk rrf_k docs seen_uris rank scores))
          + rank
        ≤ length (keys scores) + per_chunk
  unfolding rank_documents
  length-rank_documents [] seen_uris rank scores h = omega (arith, h)
  length-rank_documents ((raw_uri, raw_score) ∷ docs) seen_uris rank scores h =
      let uri = canonical raw_uri in
      let scores' = add_rank F canonical query_uri per_chunk rrf_k uri (suc rank) scores in
      elim (Bool-cases (F.le raw_score F.zero || uri == query_uri || contains seen_uris uri)) [
        | inl skip ↦ rw skip (length-rank_documents docs seen_uris rank scores h)
        | inr skip ↦ rw skip (elim (Bool-cases (leb per_chunk (suc rank))) [
          | inl full ↦ rw full (omega (arith, h, length-keys-add_rank uri (suc rank) scores))
          | inr full ↦ rw full (
              omega (
                arith,
                h,
                length-keys-add_rank uri (suc rank) scores,
                length-rank_documents docs (uri ∷ seen_uris) (suc rank) scores'
                    (ground (arith, full)),
              ))
        ])
      ]

  -- The query's own address is not among the candidates of a chunk.
  has_key-rank_documents :
      (docs : List (String × F.Number)) (seen_uris : List String) (rank : ℕ)
      (scores : Dict String F.Number)
      → has_key scores query_uri ≡ false
      → has_key
          (rank_documents F canonical query_uri per_chunk rrf_k docs seen_uris rank scores)
          query_uri
        ≡ false
  unfolding rank_documents
  has_key-rank_documents [] seen_uris rank scores h = h
  has_key-rank_documents ((raw_uri, raw_score) ∷ docs) seen_uris rank scores h =
      let uri = canonical raw_uri in
      let scores' = add_rank F canonical query_uri per_chunk rrf_k uri (suc rank) scores in
      let value =
        F.add (score_of F canonical query_uri per_chunk rrf_k uri scores)
          (F.div F.one (F.add rrf_k (F.of_ratio (suc rank) 1))) in
      elim (Bool-cases (F.le raw_score F.zero || uri == query_uri || contains seen_uris uri)) [
        | inl skip ↦ rw skip (has_key-rank_documents docs seen_uris rank scores h)
        | inr skip ↦
            let k : has_key scores' query_uri ≡ false =
              ground (arith, h, skip, lookup-insert query_uri uri value scores) in
            rw skip (elim (Bool-cases (leb per_chunk (suc rank))) [
              | inl full ↦ rw full k
              | inr full ↦
                  rw full (has_key-rank_documents docs (uri ∷ seen_uris) (suc rank) scores' k)
            ])
      ]

  collect_candidate_scores-from :
      (rankings : List (List (String × F.Number))) (scores : Dict String F.Number)
      → 0 < per_chunk
      → has_key scores query_uri ≡ false
      → (length
            (keys (collect_candidate_scores F canonical query_uri per_chunk rrf_k rankings scores))
          ≤ length (keys scores) + length rankings * per_chunk)
        × (has_key
              (collect_candidate_scores F canonical query_uri per_chunk rrf_k rankings scores)
              query_uri
            ≡ false)
  unfolding collect_candidate_scores
  collect_candidate_scores-from [] scores h k = (omega arith, k)
  collect_candidate_scores-from (docs ∷ rankings) scores h k =
      let scores' = rank_documents F canonical query_uri per_chunk rrf_k docs [] 0 scores in
      let (le, fresh) =
        collect_candidate_scores-from rankings scores' h
          (has_key-rank_documents docs [] 0 scores k) in
      (omega (arith, le, length-rank_documents docs [] 0 scores h), fresh)

  -- The candidates of a query of some chunks are at most `per_chunk` for each chunk, where `per_chunk` is
  -- at least 1, and the query's own address is not one of them.
  pub collect_candidate_scores-le :
      (rankings : List (List (String × F.Number)))
      → 0 < per_chunk
      → (length (keys (collect_candidate_scores F canonical query_uri per_chunk rrf_k rankings []))
          ≤ length rankings * per_chunk)
        × (has_key
              (collect_candidate_scores F canonical query_uri per_chunk rrf_k rankings [])
              query_uri
            ≡ false)
  unfolding lookup keys
  collect_candidate_scores-le rankings h =
      let (le, fresh) = collect_candidate_scores-from rankings [] h refl in
      (omega (arith, le), fresh)
