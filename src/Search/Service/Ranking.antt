-- ===== src/Search/Service/Ranking.antt =====
-- The ranking of wks/services/search.py: _rank_semantic_hits, _rank_lexical_chunks and
-- _term_frequency_score, and the searches of a single index that use them.
use wks.Common.{
  Answer, answer, raised, ℕ, String, ◌<>◌, Bool, true, not, ◌||◌, Option, none, some, List, [], ◌∷◌,
  map, ◌==◌, string_eq, nat_eq, if◌then◌else◌, length, contains, distinct, zip, sort_by, drop_if,
  count_if,
}
use wks.Common.Dict.{lookup, keys}
use wks.Common.Float.{Float}
use wks.Common.Text.{strip, is_empty, words}
use wks.Index.Chunker.{Chunk}
use wks.Search.Hits.{Hit}
use wks.Search.Dedupe.{dedupe_hits}
use wks.Search.Service.{
  SearchRequest, lexical, semantic, validation, not_found, runtime, IndexSpec, IndexConfig,
  EmbeddedDoc, query_output, lexical_candidate_limit, SearchResponse, error_response, Runtime,
  Texts,
}

module _ (F : Float) (R : Runtime F) (X : Texts F) where
  open F use {Number}

  -- `query_terms`, a set; a blank query has none.
  unfoldable pub query_terms : String → List String
  query_terms query = distinct (map X.lower (words query))

  -- `float(scores[index]) * (1.0 + 0.2 * matches)`
  unfoldable pub boost : List String → EmbeddedDoc → Number → Number
  boost terms doc score =
      if length terms == 0 || length doc.segments == 0
      then score
      else F.mul score (
          F.add F.one
            (F.mul (F.of_ratio 2 10) (F.of_ratio (count_if (contains doc.segments) terms) 1)))

  -- `sorted(range(len(scores)), key=scores, reverse=True)`, with the items in place of their indices
  unfoldable pub rank {ℓ} : {A : Type ℓ} → List (A × Number) → List (A × Number)
  rank = sort_by (λ a b. not (F.lt a.1 b.1))

  abbrev semantic_hit : EmbeddedDoc × Number → Hit F
  semantic_hit (doc, score) = record {
    uri = doc.uri;
    chunk_index = doc.chunk_index;
    score = F.round 4 score;
    tokens = doc.tokens;
    text = doc.text;
  }

  -- `_rank_semantic_hits` from the scores on
  unfoldable pub rank_semantic_hits : List EmbeddedDoc → List Number → String → ℕ → List (Hit F)
  rank_semantic_hits docs scores query k =
      let boosted = map (λ e. (e.0, boost (query_terms query) e.0 e.1)) (zip docs scores) in
      dedupe_hits F X.canonical X.digest (map semantic_hit (rank boosted)) k

  -- `_term_frequency_score`
  unfoldable pub term_frequency_score : List String → List String → Number
  term_frequency_score terms [] = F.zero
  term_frequency_score terms (w ∷ ws) =
      F.of_ratio (count_if (contains terms) (w ∷ ws)) (length (w ∷ ws))

  -- `chunk.text.lower().split()`
  abbrev pub chunk_words : Chunk → List String
  chunk_words chunk = words (X.lower chunk.text)

  -- `query_terms.intersection(corpus[item])`
  abbrev pub shares_term : List String → Chunk → Bool
  shares_term terms chunk = not (count_if (contains (chunk_words chunk)) terms == 0)

  abbrev pub lexical_score : List String → Chunk × Number → Number
  lexical_score terms (chunk, score) =
      if F.le score F.zero then term_frequency_score terms (chunk_words chunk) else score

  abbrev lexical_hit : List String → Chunk × Number → Hit F
  lexical_hit terms (chunk, score) = record {
    uri = chunk.uri;
    chunk_index = chunk.chunk_index;
    score = F.round 4 (lexical_score terms (chunk, score));
    tokens = chunk.tokens;
    text = chunk.text;
  }

  -- `_rank_lexical_chunks`
  unfoldable pub rank_lexical_chunks : List Chunk → String → ℕ → List (Hit F)
  rank_lexical_chunks [] query k = []
  rank_lexical_chunks (c ∷ cs) query k =
      let terms = distinct (words (X.lower query)) in
      let scores = R.bm25_scores (map chunk_words (c ∷ cs)) terms in
      let ranked = drop_if (λ e. not (shares_term terms e.0)) (rank (zip (c ∷ cs) scores)) in
      dedupe_hits F X.canonical X.digest (map (lexical_hit terms) ranked) k

  abbrev pub found : List (Hit F) → String → String
  found hits query = "Found " <> (X.text_of (length hits) <> (" results for '" <> (query <> "'")))

  -- `_run_semantic_search` from the documents on
  abbrev pub semantic_response :
      SearchRequest → String → String → List EmbeddedDoc → Answer (List Number) → SearchResponse F
  semantic_response request index_name model [] scores =
      error_response F ("No embeddings for index '" <> (index_name <> "'")) not_found
        (("No embeddings found for index '"
            <> (index_name
                <> ("' and model '" <> (model <> "'. Run: wksc index embed <index_name>"))))
          ∷ [])
        (query_output request) index_name semantic (some model) 0
  semantic_response request index_name model (d ∷ ds) (raised e) =
      error_response F e runtime (e ∷ []) (query_output request) index_name semantic (some model)
        (length (d ∷ ds))
  semantic_response request index_name model (d ∷ ds) (answer scores) =
      let hits = rank_semantic_hits (d ∷ ds) scores request.query request.k in
      record {
        success = true;
        message = found hits (query_output request);
        failure_kind = none;
        errors = [];
        warnings = [];
        query = query_output request;
        index_name = index_name;
        search_mode = semantic;
        embedding_model = some model;
        hits = hits;
        total_chunks = length (d ∷ ds);
      }

  unfoldable pub run_semantic_search : SearchRequest → String → String → SearchResponse F
  run_semantic_search request index_name model =
      semantic_response request index_name model (R.semantic_docs index_name model)
        (R.semantic_scores index_name model request.query request.query_image)

  -- `_run_lexical_search` from the candidates on
  abbrev pub lexical_response : SearchRequest → String → Answer (ℕ × List Chunk) → SearchResponse F
  lexical_response request index_name (raised e) =
      error_response F e runtime (e ∷ []) request.query index_name lexical none 0
  lexical_response request index_name (answer (total, chunks)) =
      let empty = "Index '" <> (index_name <> "' is empty") in
      let hits = rank_lexical_chunks chunks request.query request.k in
      if total == 0
      then error_response F empty not_found (empty ∷ []) request.query index_name lexical none 0
      else record {
        success = true;
        message = found hits request.query;
        failure_kind = none;
        errors = [];
        warnings = [];
        query = request.query;
        index_name = index_name;
        search_mode = lexical;
        embedding_model = none;
        hits = hits;
        total_chunks = total;
      }

  unfoldable pub run_lexical_search : SearchRequest → String → SearchResponse F
  run_lexical_search request index_name =
      if not (is_empty (strip request.query_image))
      then error_response F "query_image is only supported for semantic indexes" validation
          ("query_image requires an index configured with embedding_model" ∷ [])
          (query_output request) index_name lexical none 0
      else if is_empty (strip request.query)
      then record {
        success = true;
        message = "Found 0 results for ''";
        failure_kind = none;
        errors = [];
        warnings = [];
        query = "";
        index_name = index_name;
        search_mode = lexical;
        embedding_model = none;
        hits = [];
        total_chunks = 0;
      }
      else lexical_response request index_name
          (R.lexical_chunks index_name request.query (lexical_candidate_limit request.k))

  -- `_run_single_index_search` of an index that is looked up
  abbrev pub single_response :
      IndexConfig → SearchRequest → String → Option IndexSpec → SearchResponse F
  single_response cfg request index_name none =
      error_response F ("Unknown index: " <> index_name) not_found
        (("Index '"
            <> (index_name
                <> ("' not defined in config (available: "
                    <> (X.list_text (keys cfg.indexes) <> ")"))))
          ∷ [])
        (query_output request) index_name lexical none 0
  single_response cfg request index_name (some spec) = elim spec.embedding_model [
    | none ↦ run_lexical_search request index_name
    | some model ↦ run_semantic_search request index_name model
  ]

  unfoldable pub run_single_index_search : IndexConfig → SearchRequest → SearchResponse F
  run_single_index_search cfg request =
      let index_name = if is_empty request.index then cfg.default_index else request.index in
      single_response cfg request index_name (lookup index_name cfg.indexes)
