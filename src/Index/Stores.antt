-- ===== src/Index/Stores.antt =====
-- `_ChunkStore` and `_EmbeddingStore` (wks/api/index). The database is a collection; `search_text` asks
-- its text index, which may fail, and its search by a pattern.
pub mod Laws
use wks.Common.{
  ℕ, zero, suc, String, ◌<>◌, Bool, true, false, ◌&&◌, Option, none, some, List, [], ◌∷◌, map, ◌==◌,
  string_eq, nat_eq, if◌then◌else◌, leb, ltb, length, keep_if, count_if, contains, distinct,
  insert_by, sort_by, Answer, answer, raised,
}
use wks.Common.Text.{is_empty, text_before}
use wks.Database.{Collection}
use wks.Index.Chunker.{Chunk}

-- A document of the collection of chunks.
pub record ChunkDoc : Type 0 where
  pub index_name : String
  pub uri : String
  pub checksum : String
  pub chunk_index : ℕ
  pub text : String
  pub tokens : ℕ
  pub is_continuation : Bool

-- `{"index_name": index_name}`
abbrev pub in_index : String → ChunkDoc → Bool
in_index index_name d = d.index_name == index_name

-- `{"index_name": index_name, "uri": uri}`
abbrev pub of_uri : String → String → ChunkDoc → Bool
of_uri index_name uri d = d.index_name == index_name && d.uri == uri

abbrev pub doc_of : String → String → Chunk → ChunkDoc
doc_of index_name checksum c = record {
  index_name = index_name;
  uri = c.uri;
  checksum = checksum;
  chunk_index = c.chunk_index;
  text = c.text;
  tokens = c.tokens;
  is_continuation = c.is_continuation;
}

-- `_chunk_from_doc`
abbrev pub chunk_of : ChunkDoc → Chunk
chunk_of d = record {
  text = d.text;
  uri = d.uri;
  chunk_index = d.chunk_index;
  tokens = d.tokens;
  is_continuation = d.is_continuation;
}

abbrev pub scan_limit : ℕ
scan_limit = 10000

-- The loop of `uris`: a set, in the order in which it grows.
unfoldable pub collect_uris : Option ℕ → List String → List ChunkDoc → List String
collect_uris limit seen [] = seen
collect_uris none seen (d ∷ docs) =
    collect_uris none (if contains seen d.uri then seen else d.uri ∷ seen) docs
collect_uris (some limit) seen (d ∷ docs) =
    let seen' = if contains seen d.uri then seen else d.uri ∷ seen in
    let rest = collect_uris (some limit) seen' docs in
    if leb limit (length seen') then seen' else rest

module _ (C : Collection ChunkDoc) where
  open C use {State}

  -- `insert_many`, which is not called for no documents.
  abbrev pub insert_docs : State → List ChunkDoc → State
  insert_docs s [] = s
  insert_docs s (d ∷ docs) = C.insert_many s (d ∷ docs)

  unfoldable pub replace_uri : String → String → String → List Chunk → State → ℕ × State
  replace_uri index_name uri checksum chunks s = (
    length chunks,
    insert_docs (C.delete_many s (of_uri index_name uri)) (map (doc_of index_name checksum) chunks),
  )

  unfoldable pub get_all : String → State → List Chunk
  get_all index_name s = map chunk_of (keep_if (in_index index_name) (C.all s))

  -- `index_name if index_name else None` as a filter
  abbrev pub optional_index : Option String → ChunkDoc → Bool
  optional_index none d = true
  optional_index (some index_name) d = if is_empty index_name then true else in_index index_name d

  unfoldable pub count : Option String → State → ℕ
  count index_name s = count_if (optional_index index_name) (C.all s)

  unfoldable pub document_count : String → State → ℕ
  document_count index_name s =
      length (distinct (map (λ d. d.uri) (keep_if (in_index index_name) (C.all s))))

  unfoldable pub uris : String → Option ℕ → State → List String
  uris index_name limit s =
      sort_by text_before (collect_uris limit [] (keep_if (in_index index_name) (C.all s)))

  -- The number of documents that were deleted, and the rest.
  unfoldable pub clear : Option String → State → ℕ × State
  clear index_name s = (count index_name s, C.delete_many s (optional_index index_name))

  module _ (text_search : State → String → String → ℕ → Answer (List ChunkDoc))
      (pattern_search : State → String → List String → ℕ → List ChunkDoc) (text_of : ℕ → String)
      (query_terms : String → List String) where
    abbrev pub find_pattern : State → String → List String → ℕ → List Chunk
    find_pattern s index_name [] limit = []
    find_pattern s index_name (term ∷ terms) limit =
        map chunk_of (pattern_search s index_name (term ∷ terms) limit)

    -- `_search_text_fallback`
    unfoldable pub search_text_fallback : String → String → ℕ → State → Answer (List Chunk)
    search_text_fallback index_name query limit s =
        let total_chunks = count (some index_name) s in
        if ltb scan_limit total_chunks
        then raised (
            "Text search index is unavailable for '"
            <> (index_name
                <> ("' ("
                    <> (text_of total_chunks
                        <> (" chunks exceeds fallback scan limit "
                            <> (text_of scan_limit <> "). Run: wksc index optimize"))))))
        else answer (find_pattern s index_name (query_terms query) limit)

    unfoldable pub search_text : String → String → ℕ → State → Answer (List Chunk)
    search_text index_name query limit s =
        let fallback = search_text_fallback index_name query limit s in
        if limit == 0 then answer [] else elim (text_search s index_name query limit) [
          | answer docs ↦ answer (map chunk_of docs)
          | raised e ↦ fallback
        ]

-- A document of the collection of embeddings.
pub record EmbeddingDoc : Type 0 where
  pub index_name : String
  pub embedding_model : String
  pub embedding_mode : String
  pub uri : String
  pub chunk_index : ℕ
  pub tokens : ℕ
  pub text : String
  -- the text of the row's numbers
  pub embedding : String

module _ (C : Collection EmbeddingDoc) where
  abbrev pub of_model : String → String → EmbeddingDoc → Bool
  of_model index_name embedding_model d =
      d.index_name == index_name && d.embedding_model == embedding_model

  abbrev pub insert_embeddings : C.State → List EmbeddingDoc → C.State
  insert_embeddings s [] = s
  insert_embeddings s (d ∷ docs) = C.insert_many s (d ∷ docs)

  unfoldable pub replace_index_model : String → String → List EmbeddingDoc → C.State → ℕ × C.State
  replace_index_model index_name embedding_model docs s =
      (length docs, insert_embeddings (C.delete_many s (of_model index_name embedding_model)) docs)

  unfoldable pub replace_embeddings :
      String → String → String → List EmbeddingDoc → C.State → ℕ × C.State
  replace_embeddings index_name embedding_model uri docs s = (
    length docs,
    insert_embeddings (C.delete_many s (λ d. of_model index_name embedding_model d && d.uri == uri))
        docs,
  )

  unfoldable pub get_embeddings : String → String → C.State → List EmbeddingDoc
  get_embeddings index_name embedding_model s =
      keep_if (of_model index_name embedding_model) (C.all s)
