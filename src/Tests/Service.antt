-- ===== src/Tests/Service.antt =====
-- Runs of wks/services/search.py, and its theorems at concrete input.
use wks.Common.{◌≡◌, refl, true, none, some, [], ◌∷◌, arith, string_eq, answer, raised, map}
use wks.Common.Dict.{lookup}
use wks.Search.Service.{SearchRequest, SearchResponse, IndexConfig, Runtime, Texts}
use wks.Search.Service.Strategy.{search_documents, run_strategy_search}
use wks.Search.Service.Laws.{search_documents_total, IsSound}
use wks.Search.Service.Gathering.{run_strategy_search-Succeeds, Succeeds}
use wks.Tests.Monitor.{whole}

abbrev runtime : Runtime whole
runtime = record {
  semantic_docs = λ index model.
      record {
        uri = "file://h/a.md";
        chunk_index = 0;
        tokens = 2;
        text = "red fox";
        segments = "a" ∷ [];
      }
      ∷ [];
  semantic_scores = λ index model query image. answer (3 ∷ []);
  lexical_chunks = λ index query limit. raised "no text index";
  embedding_count = λ index model. 1;
  bm25_scores = λ corpus terms. map (λ words. 1) corpus;
}

abbrev texts : Texts whole
texts = record {
  text_of = λ n. "1";
  list_text = λ names. "[]";
  lower = λ text. text;
  canonical = λ uri. uri;
  digest = λ text. text;
}

abbrev cfg : IndexConfig
cfg = record {
  default_index = "main";
  default_strategy = some "both";
  strategies = ("both", "main" ∷ "plain" ∷ "gone" ∷ []) ∷ [];
  indexes =
      ("main", record { embedding_model = some "m" })
      ∷ ("plain", record { embedding_model = none })
      ∷ [];
}

abbrev request : SearchRequest
request = record { query = "fox"; index = ""; k = 5; query_image = ""; strategy = "" }

search_documents_total_example :
    (r : SearchResponse whole) × (search_documents whole runtime texts (some cfg) request ≡ some r)
    × IsSound whole runtime texts 5 (omega arith) r
search_documents_total_example =
    search_documents_total whole runtime texts 5 (omega arith) (some cfg) request refl

run_strategy_search-Succeeds_example :
    Succeeds whole runtime texts 5
      (omega arith)
      cfg
      request
      refl
      "both"
      true
      ("main" ∷ "plain" ∷ "gone" ∷ [])
      (run_strategy_search whole runtime texts cfg request "both" true)
unfolding lookup string_eq
run_strategy_search-Succeeds_example =
    run_strategy_search-Succeeds whole runtime texts 5 (omega arith) cfg request refl "both" true
      ("main" ∷ "plain" ∷ "gone" ∷ []) refl
