-- ===== src/Search/Service.antt =====
-- `search_documents` (wks/services/search.py). What `_SEARCH_RUNTIME` reads of the database and what
-- the models compute are a record of answers.
pub mod Ranking
pub mod Strategy
pub mod Gathering
pub mod Laws
use wks.Common.{
  ℕ, ◌*◌, String, ◌<>◌, Bool, true, false, not, ◌&&◌, Option, none, some, List, [], ◌∷◌, ◌==◌,
  string_eq, if◌then◌else◌, length, min, max, Answer,
}
use wks.Common.Dict.{Dict, lookup, keys}
use wks.Common.Float.{Float}
use wks.Common.Text.{strip, is_empty}
use wks.Index.Chunker.{Chunk}
use wks.Search.Hits.{Hit}

pub record SearchRequest : Type 0 where
  pub query : String
  pub index : String
  pub k : ℕ
  pub query_image : String
  pub strategy : String

pub data SearchMode : Type 0 where
  lexical semantic combined : SearchMode

-- `FailureKind` (wks/services/_models.py)
pub data FailureKind : Type 0 where
  config validation not_found conflict runtime : FailureKind

-- `_IndexSpec`, as far as a search reads it
pub record IndexSpec : Type 0 where
  pub embedding_model : Option String

-- `IndexConfig`; a strategy is the list of its indexes.
pub record IndexConfig : Type 0 where
  pub default_index : String
  pub default_strategy : Option String
  pub strategies : Dict String (List String)
  pub indexes : Dict String IndexSpec

-- A document of the embeddings, with its entry in `path_segments`.
pub record EmbeddedDoc : Type 0 where
  pub uri : String
  pub chunk_index : ℕ
  pub tokens : ℕ
  pub text : String
  pub segments : List String

-- `_query_output`
unfoldable pub query_output : SearchRequest → String
query_output request = if is_empty (strip request.query) then request.query_image else request.query

-- `_lexical_candidate_limit`
unfoldable pub lexical_candidate_limit : ℕ → ℕ
lexical_candidate_limit k = min (max (k * 200) 1000) 10000

module _ (F : Float) where
  open F use {Number}

  pub record SearchResponse : Type 0 where
    pub success : Bool
    pub message : String
    pub failure_kind : Option FailureKind
    pub errors : List String
    pub warnings : List String
    pub query : String
    pub index_name : String
    pub search_mode : SearchMode
    pub embedding_model : Option String
    pub hits : List (Hit F)
    pub total_chunks : ℕ

  -- `_error_response`
  abbrev pub error_response :
      String
      → FailureKind
      → List String
      → String
      → String
      → SearchMode
      → Option String
      → ℕ
      → SearchResponse
  error_response message failure_kind errors query index_name search_mode model total = record {
    success = false;
    message = message;
    failure_kind = some failure_kind;
    errors = errors;
    warnings = [];
    query = query;
    index_name = index_name;
    search_mode = search_mode;
    embedding_model = model;
    hits = [];
    total_chunks = total;
  }

  -- What the search asks of other code: the documents of a semantic index; the scores of an index's
  -- documents against a query with an image, which may raise; the number of chunks of a lexical index
  -- with its candidates up to a limit, where a `RuntimeError` is answered; the number of embeddings;
  -- and the scores of `BM25Okapi` for a corpus and terms. What the database raises where the embeddings are
  -- read or counted, which the program does not catch, is outside the model.
  pub record Runtime : Type 0 where
    pub semantic_docs : String → String → List EmbeddedDoc
    pub semantic_scores : String → String → String → String → Answer (List Number)
    pub lexical_chunks : String → String → ℕ → Answer (ℕ × List Chunk)
    pub embedding_count : String → String → ℕ
    pub bm25_scores : List (List String) → List String → List Number

  -- `str` of a number and of a list of texts, `str.lower`, the canonical form of an address, and the
  -- digest of a text.
  pub record Texts : Type 0 where
    pub text_of : ℕ → String
    pub list_text : List String → String
    pub lower : String → String
    pub canonical : String → String
    pub digest : String → String
