-- ===== src/Search/Service/Strategy.antt =====
-- `_run_strategy_search` and `search_documents` of wks/services/search.py.
use wks.Common.{
  ℕ, ◌+◌, ◌*◌, String, ◌<>◌, Bool, true, not, ◌&&◌, Option, none, some, List, [], ◌∷◌, ◌++◌,
  string_eq, if◌then◌else◌, length, ltb,
}
use wks.Common.Dict.{lookup, keys}
use wks.Common.Float.{Float}
use wks.Common.Text.{strip, is_empty}
use wks.Search.Hits.{Hit}
use wks.Search.Dedupe.{dedupe_hits}
use wks.Search.Merge.{rrf_merge}
use wks.Search.Service.{
  SearchRequest, lexical, combined, config, validation, not_found, IndexSpec, IndexConfig,
  query_output, SearchResponse, error_response, Runtime, Texts,
}
use wks.Search.Service.Ranking.{
  run_semantic_search, run_lexical_search, run_single_index_search, found,
}

module _ (F : Float) (R : Runtime F) (X : Texts F) where
  -- What the loop over the indexes changes.
  pub record Gathered : Type 0 where
    pub ranked_lists : List (List (Hit F))
    pub warnings : List String
    pub total_chunks : ℕ

  abbrev pub nothing_gathered : Gathered
  nothing_gathered = record { ranked_lists = []; warnings = []; total_chunks = 0 }

  abbrev pub warn : List String → Gathered → Gathered
  warn messages g = record g { warnings = g.warnings ++ messages }

  -- A response of an index: its hits, or its errors as warnings.
  abbrev pub gather_response : SearchResponse F → Gathered → Gathered
  gather_response response g =
      if response.success
      then record {
        ranked_lists = g.ranked_lists ++ response.hits ∷ [];
        warnings = g.warnings;
        total_chunks = g.total_chunks + length response.hits;
      }
      else warn response.errors g

  module _ (cfg : IndexConfig) (request : SearchRequest) (strategy_name : String)
      (explicit : Bool) where
    abbrev pub too_many : String → ℕ → String
    too_many index_name count =
        "Skipping semantic index '"
        <> (index_name
            <> ("' in implicit strategy '"
                <> (strategy_name
                    <> ("' ("
                        <> (X.text_of count
                            <> (" embeddings exceeds "
                                <> (X.text_of 100000
                                    <> ("); use --strategy "
                                        <> (strategy_name <> " to include it explicitly")))))))))

    -- The test that an implicit strategy makes of a semantic index.
    abbrev pub is_skipped : String → String → Bool
    is_skipped index_name model =
        not explicit
        && is_empty (strip request.query_image)
        && ltb 100000 (R.embedding_count index_name model)

    abbrev pub semantic_request : String → SearchRequest
    semantic_request index_name = record {
      query = request.query;
      index = index_name;
      k = request.k * 3;
      query_image = request.query_image;
      strategy = "";
    }

    abbrev pub lexical_request : String → SearchRequest
    lexical_request index_name = record {
      query = request.query;
      index = index_name;
      k = request.k * 3;
      query_image = "";
      strategy = "";
    }

    -- The body of the loop, for an index that is looked up and its model.
    unfoldable pub gather_index : String → Option IndexSpec → Gathered → Gathered
    gather_index index_name none g =
        warn (("Strategy index '" <> (index_name <> "' not found, skipping")) ∷ []) g
    gather_index index_name (some spec) g = elim spec.embedding_model [
      | some model ↦
          if is_skipped index_name model
          then warn (too_many index_name (R.embedding_count index_name model) ∷ []) g
          else gather_response
              (run_semantic_search F R X (semantic_request index_name) index_name model) g
      | none ↦
          if is_empty (strip request.query)
          then g
          else gather_response (run_lexical_search F R X (lexical_request index_name) index_name) g
    ]

    unfoldable pub gather_indexes : List String → Gathered → Gathered
    gather_indexes [] g = g
    gather_indexes (index_name ∷ more) g =
        gather_indexes more (gather_index index_name (lookup index_name cfg.indexes) g)

    abbrev pub combined_response : String → List String → List (Hit F) → ℕ → SearchResponse F
    combined_response message warnings hits total = record {
      success = true;
      message = message;
      failure_kind = none;
      errors = [];
      warnings = warnings;
      query = query_output request;
      index_name = strategy_name;
      search_mode = combined;
      embedding_model = none;
      hits = hits;
      total_chunks = total;
    }

    -- What follows the loop, by the lists that were gathered and their fusion; no response is the
    -- `KeyError` of the fusion.
    abbrev pub combine_lists :
        Gathered → List (List (Hit F)) → Option (List (Hit F)) → Option (SearchResponse F)
    combine_lists g [] merged =
        let message = "No results from any index in strategy '" <> (strategy_name <> "'") in
        some (combined_response message g.warnings [] 0)
    combine_lists g (l ∷ ls) none = none
    combine_lists g (l ∷ ls) (some merged) =
        let hits = dedupe_hits F X.canonical X.digest merged request.k in
        some (
          combined_response (found F R X hits (query_output request)) g.warnings hits
            g.total_chunks)

    abbrev pub combine : Gathered → Option (SearchResponse F)
    combine g = combine_lists g g.ranked_lists (rrf_merge F X.text_of g.ranked_lists request.k 60)

    abbrev pub strategy_response : Option (List String) → Option (SearchResponse F)
    strategy_response none = some (
        error_response F ("Unknown strategy: " <> strategy_name) not_found
          (("Strategy '"
              <> (strategy_name
                  <> ("' not defined in config (available: "
                      <> (X.list_text (keys cfg.strategies) <> ")"))))
            ∷ [])
          (query_output request) strategy_name combined none 0)
    strategy_response (some indexes) = combine (gather_indexes indexes nothing_gathered)

    unfoldable pub run_strategy_search : Option (SearchResponse F)
    run_strategy_search = strategy_response (lookup strategy_name cfg.strategies)

  -- `_resolve_strategy_name`
  unfoldable pub resolve_strategy_name : IndexConfig → SearchRequest → String
  resolve_strategy_name cfg request =
      if not (is_empty request.strategy) then request.strategy else elim cfg.default_strategy [
        | none ↦ ""
        | some name ↦ if is_empty request.index then name else ""
      ]

  abbrev pub refused : String → String → SearchResponse F
  refused message query = error_response F message validation (message ∷ []) query "" lexical none 0

  unfoldable pub search_configured : IndexConfig → SearchRequest → Option (SearchResponse F)
  search_configured cfg request =
      if is_empty (strip request.query) && is_empty (strip request.query_image)
      then some (refused "Either query or query_image is required" "")
      else if not (is_empty request.index) && not (is_empty request.strategy)
      then some (refused "Cannot specify both --index and --strategy" request.query)
      else if is_empty (resolve_strategy_name cfg request)
      then some (run_single_index_search F R X cfg request)
      else run_strategy_search cfg request (resolve_strategy_name cfg request)
          (not (is_empty request.strategy))

  unfoldable pub search_documents : Option IndexConfig → SearchRequest → Option (SearchResponse F)
  search_documents none request = some (
      error_response F "Index not configured" config ("No index section in config" ∷ [])
        request.query "" lexical none 0)
  search_documents (some cfg) request = search_configured cfg request
