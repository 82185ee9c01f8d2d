-- ===== src/Search/Service/Laws.antt =====
-- The responses of a search, and what a strategy makes of the lists that it gathered
-- (wks/services/search.py).
use wks.Common.{
  Answer, answer, raised, ℕ, ◌<◌, String, ◌≡◌, refl, inl, inr, Bool, true, false, not, ◌&&◌, Option,
  none, some, List, [], ◌∷◌, ◌==◌, nat_eq, string_eq, arith, if◌then◌else◌, length, is_some,
  Bool-cases, Option-cases, subst, sym,
}
use wks.Common.Dict.{lookup}
use wks.Common.Float.{Float}
use wks.Common.Text.{strip, is_empty}
use wks.Index.Chunker.{Chunk}
use wks.Search.Hits.{Hit}
use wks.Search.Dedupe.Laws.{IsDeduped, dedupe_hits_lem}
use wks.Search.Dedupe.{dedupe_hits}
use wks.Search.Merge.{rrf_merge}
use wks.Search.Merge.Laws.{rrf_merge_total}
use wks.Search.Service.{
  SearchRequest, SearchMode, FailureKind, IndexSpec, IndexConfig, EmbeddedDoc, SearchResponse,
  error_response, Runtime, Texts,
}
use wks.Search.Service.Ranking.{
  rank_semantic_hits, rank_lexical_chunks, semantic_response, run_semantic_search, lexical_response,
  run_lexical_search, single_response, run_single_index_search,
}
use wks.Search.Service.Strategy.{
  Gathered, combine, combine_lists, strategy_response, run_strategy_search, search_configured,
  search_documents, gather_indexes, nothing_gathered, refused, resolve_strategy_name,
}

module _ (F : Float) (R : Runtime F) (X : Texts F) (k : ℕ) (at_least_one : 0 < k) where
  -- A success has no errors and no kind of failure; a failure has both, and no hits.
  abbrev pub IsHonest : Bool → SearchResponse F → Type 0
  IsHonest true r = (r.failure_kind ≡ none) × (r.errors ≡ [])
  IsHonest false r = (is_some r.failure_kind ≡ true) × (0 < length r.errors) × (r.hits ≡ [])

  pub record IsSound (r : SearchResponse F) : Type 0 where
    pub honest : IsHonest r.success r
    pub deduped : IsDeduped F X.canonical X.digest k r.hits

  none-IsDeduped : IsDeduped F X.canonical X.digest k []
  none-IsDeduped = record { distinct_uris = tt; distinct_hashes = tt; short = omega arith }

  error_response-IsSound :
      (message : String) (kind : FailureKind) (e : String) (query index_name : String)
      → (mode : SearchMode) (model : Option String) (total : ℕ)
      → IsSound (error_response F message kind (e ∷ []) query index_name mode model total)
  error_response-IsSound message kind e query index_name mode model total = record {
    honest = (refl, omega arith, refl);
    deduped = none-IsDeduped;
  }

  rank_semantic_hits-IsDeduped :
      (docs : List EmbeddedDoc) (scores : List F.Number) (query : String)
      → IsDeduped F X.canonical X.digest k (rank_semantic_hits F R X docs scores query k)
  unfolding rank_semantic_hits
  rank_semantic_hits-IsDeduped docs scores query =
      (dedupe_hits_lem F X.canonical X.digest _ k at_least_one).0

  rank_lexical_chunks-IsDeduped :
      (chunks : List Chunk) (query : String)
      → IsDeduped F X.canonical X.digest k (rank_lexical_chunks F R X chunks query k)
  unfolding rank_lexical_chunks
  rank_lexical_chunks-IsDeduped [] query = none-IsDeduped
  rank_lexical_chunks-IsDeduped (c ∷ cs) query =
      (dedupe_hits_lem F X.canonical X.digest _ k at_least_one).0

  semantic_response-IsSound :
      (request : SearchRequest) (index_name model : String) (docs : List EmbeddedDoc)
      → (scores : Answer (List F.Number)) → request.k ≡ k
      → IsSound (semantic_response F R X request index_name model docs scores)
  semantic_response-IsSound request index_name model [] scores e =
      error_response-IsSound _ _ _ _ _ _ _ _
  semantic_response-IsSound request index_name model (d ∷ ds) (raised m) e =
      error_response-IsSound _ _ _ _ _ _ _ _
  semantic_response-IsSound request index_name model (d ∷ ds) (answer scores) e = record {
    honest = (refl, refl);
    deduped = rw e (rank_semantic_hits-IsDeduped (d ∷ ds) scores request.query);
  }

  lexical_response-IsSound :
      (request : SearchRequest) (index_name : String) (found : Answer (ℕ × List Chunk))
      → request.k ≡ k
      → IsSound (lexical_response F R X request index_name found)
  lexical_response-IsSound request index_name (raised m) e = error_response-IsSound _ _ _ _ _ _ _ _
  lexical_response-IsSound request index_name (answer (total, chunks)) e =
      elim (Bool-cases (total == 0)) [
        | inl h ↦ rw h (error_response-IsSound _ _ _ _ _ _ _ _)
        | inr h ↦ rw h (record {
          honest = (refl, refl);
          deduped = rw e (rank_lexical_chunks-IsDeduped chunks request.query);
        })
      ]

  run_semantic_search-IsSound :
      (request : SearchRequest) (index_name model : String)
      → request.k ≡ k
      → IsSound (run_semantic_search F R X request index_name model)
  unfolding run_semantic_search
  run_semantic_search-IsSound request index_name model e =
      semantic_response-IsSound request index_name model (R.semantic_docs index_name model)
        (R.semantic_scores index_name model request.query request.query_image) e

  run_lexical_search-IsSound :
      (request : SearchRequest) (index_name : String)
      → request.k ≡ k
      → IsSound (run_lexical_search F R X request index_name)
  unfolding run_lexical_search
  run_lexical_search-IsSound request index_name e =
      elim (Bool-cases (is_empty (strip request.query_image))) [
        | inr h ↦ rw h (error_response-IsSound _ _ _ _ _ _ _ _)
        | inl h ↦ elim (Bool-cases (is_empty (strip request.query))) [
          | inl g ↦ rw (h, g) (record { honest = (refl, refl); deduped = none-IsDeduped })
          | inr g ↦
              rw (h, g)
                (lexical_response-IsSound request index_name
                  (R.lexical_chunks index_name request.query _) e)
        ]
      ]

  single_response-IsSound :
      (cfg : IndexConfig) (request : SearchRequest) (index_name : String) (spec : Option IndexSpec)
      → request.k ≡ k
      → IsSound (single_response F R X cfg request index_name spec)
  single_response-IsSound cfg request index_name none e = error_response-IsSound _ _ _ _ _ _ _ _
  single_response-IsSound cfg request index_name (some spec) e =
      elim (Option-cases spec.embedding_model) [
        | inl h ↦ rw h (run_lexical_search-IsSound request index_name e)
        | inr (model, h) ↦ rw h (run_semantic_search-IsSound request index_name model e)
      ]

  module _ (cfg : IndexConfig) (request : SearchRequest) (same : request.k ≡ k) (name : String)
      (explicit : Bool) where
    -- The hits are those of the fused lists, without duplicates.
    abbrev pub Fuses : List (List (Hit F)) → List (Hit F) → Type 0
    Fuses [] hits = hits ≡ []
    Fuses (l ∷ ls) hits =
        (merged : List (Hit F)) × (rrf_merge F X.text_of (l ∷ ls) request.k 60 ≡ some merged)
        × (hits ≡ dedupe_hits F X.canonical X.digest merged request.k)

    abbrev pub total_if : List (List (Hit F)) → ℕ → ℕ
    total_if [] total = 0
    total_if (l ∷ ls) total = total

    -- The response that is made of what was gathered: a sound success for the strategy.
    pub record Combines (g : Gathered F R X) (lists : List (List (Hit F)))
        (result : Option (SearchResponse F)) : Type 0 where
      pub response : SearchResponse F
      pub returned : result ≡ some response
      pub sound : IsSound response
      pub succeeds : response.success ≡ true
      pub named : response.index_name ≡ name
      pub warned : response.warnings ≡ g.warnings
      pub total : response.total_chunks ≡ total_if lists g.total_chunks
      pub fused : Fuses lists response.hits

    combine_lists-Combines :
        (g : Gathered F R X) (lists : List (List (Hit F))) (merged : List (Hit F))
        → rrf_merge F X.text_of lists request.k 60 ≡ some merged
        → Combines g lists (combine_lists F R X cfg request name explicit g lists (some merged))
    combine_lists-Combines g [] merged e = record {
      response = _;
      returned = refl;
      sound = record { honest = (refl, refl); deduped = none-IsDeduped };
      succeeds = refl;
      named = refl;
      warned = refl;
      total = refl;
      fused = refl;
    }
    combine_lists-Combines g (l ∷ ls) merged e = record {
      response = _;
      returned = refl;
      sound = record {
        honest = (refl, refl);
        deduped = rw same ((dedupe_hits_lem F X.canonical X.digest merged k at_least_one).0);
      };
      succeeds = refl;
      named = refl;
      warned = refl;
      total = refl;
      fused = (merged, e, refl);
    }

    pub combine-Combines :
        (g : Gathered F R X) → Combines g g.ranked_lists (combine F R X cfg request name explicit g)
    combine-Combines g =
        let (merged, e, bound) =
          rrf_merge_total F X.text_of g.ranked_lists request.k 60 (omega arith) in
        subst
          (λ m.
            Combines g g.ranked_lists
              (combine_lists F R X cfg request name explicit g g.ranked_lists m))
          (sym e) (combine_lists-Combines g g.ranked_lists merged e)

    -- A response is there, and is sound.
    abbrev pub Responds : Option (SearchResponse F) → Type 0
    Responds result = (r : SearchResponse F) × (result ≡ some r) × IsSound r

    strategy_response-Responds :
        (found : Option (List String))
        → Responds (strategy_response F R X cfg request name explicit found)
    strategy_response-Responds none = (_, refl, error_response-IsSound _ _ _ _ _ _ _ _)
    strategy_response-Responds (some indexes) =
        let c =
          combine-Combines
            (gather_indexes F R X cfg request name explicit indexes (nothing_gathered F R X)) in
        (c.response, c.returned, c.sound)

  single-Responds :
      (cfg : IndexConfig) (request : SearchRequest)
      → request.k ≡ k
      → IsSound (run_single_index_search F R X cfg request)
  unfolding run_single_index_search
  single-Responds cfg request same =
      let name = if is_empty request.index then cfg.default_index else request.index in
      single_response-IsSound cfg request name (lookup name cfg.indexes) same

  search_configured-Responds :
      (cfg : IndexConfig) (request : SearchRequest) (same : request.k ≡ k)
      → (blank both plain : Bool)
      → Responds cfg request same "" false (
          if blank
          then some (refused F R X "Either query or query_image is required" "")
          else if both
          then some (refused F R X "Cannot specify both --index and --strategy" request.query)
          else if plain
          then some (run_single_index_search F R X cfg request)
          else run_strategy_search F R X cfg request
              (resolve_strategy_name F R X cfg request)
              (not (is_empty request.strategy)))
  unfolding run_strategy_search
  search_configured-Responds cfg request same true both plain =
      (_, refl, error_response-IsSound _ _ _ _ _ _ _ _)
  search_configured-Responds cfg request same false true plain =
      (_, refl, error_response-IsSound _ _ _ _ _ _ _ _)
  search_configured-Responds cfg request same false false true =
      (run_single_index_search F R X cfg request, refl, single-Responds cfg request same)
  search_configured-Responds cfg request same false false false =
      strategy_response-Responds cfg request same (resolve_strategy_name F R X cfg request)
        (not (is_empty request.strategy))
        (lookup (resolve_strategy_name F R X cfg request) cfg.strategies)

  -- Every search ends with a response, whatever the configuration, the request and the answers of
  -- the runtime are. A success has no errors and no kind of failure; a failure names its kind and an
  -- error, and has no hits. There are at most `k` hits, with no address and no text twice.
  pub search_documents_total :
      (cfg : Option IndexConfig) (request : SearchRequest)
      → request.k ≡ k
      → (r : SearchResponse F) × (search_documents F R X cfg request ≡ some r) × IsSound r
  unfolding search_documents search_configured
  search_documents_total none request same = (_, refl, error_response-IsSound _ _ _ _ _ _ _ _)
  search_documents_total (some cfg) request same =
      search_configured-Responds cfg request same
        (is_empty (strip request.query) && is_empty (strip request.query_image))
        (not (is_empty request.index) && not (is_empty request.strategy))
        (is_empty (resolve_strategy_name F R X cfg request))
