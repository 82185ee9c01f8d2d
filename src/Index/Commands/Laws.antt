-- ===== src/Index/Commands/Laws.antt =====
-- The report of the index command against the stores (wks/api/index/cmd.py).
use wks.Common.{
  String, ◌≡◌, refl, Bool, Option, none, some, List, [], ◌∷◌, ◌++◌, ◌==◌, string_eq, if◌then◌else◌,
  length, drop_if, Answer, answer, raised, Bool-cases, inl, inr,
}
use wks.Common.Dict.{Dict, lookup}
use wks.Common.Float.{Float}
use wks.Database.{Collection, IsLawful}
use wks.FilePath.{FilePath, Process, to_string}
use wks.Uri.{uri_path, from_any, from_path}
use wks.Index.Chunker.{Chunk}
use wks.Index.Stores.{ChunkDoc, EmbeddingDoc, replace_uri, replace_embeddings, get_all}
use wks.Index.Stores.Laws.{get_all-replace_uri}
use wks.Transform.Engines.{Options, FileFacts, Engine, Choice}
use wks.Index.Commands.{
  IndexTarget, IndexOutcome, Transforms, World, Target, build_embedding_docs, choose, chunks_of,
  store_embeddings, store_content, store_chosen, index_path, index_document,
}

module _ (F : Float) (O : Options) (lower unquote : String → String) (known_type : String → Bool)
    (env : Process) (hostname : String) (exists : FilePath → Bool)
    (facts : FilePath → FileFacts O lower) (engines : Dict String (Engine O lower)) {T : Type 0}
    (A : Transforms T) (C : Collection ChunkDoc) (E : Collection EmbeddingDoc) where
  abbrev W : Type 0
  W = World F O lower unquote known_type env hostname exists facts engines A C E

  abbrev D : Type 0
  D = Target F O lower unquote known_type env hostname exists facts engines A C E

  abbrev chunks_at : D → FilePath → String → T → List Chunk
  chunks_at spec file_path checksum t =
      chunks_of F O lower unquote known_type env hostname exists facts engines A C E spec
        (A.get_content checksum t) (from_path env hostname (to_string file_path))

  -- A refusal and an exception leave the embeddings as they are, and a refusal the chunks too. A report of
  -- chunks is true: the index has the chunks of the document's content, and the other documents' as before.
  abbrev pub IsTrue :
      String
      → Option (IndexTarget F.Number)
      → Option FilePath
      → World F O lower unquote known_type env hostname exists facts engines A C E
      → IndexOutcome × World F O lower unquote known_type env hostname exists facts engines A C E
      → Type 0
  IsTrue name spec path (t, s, e) (IndexOutcome.refused result, (t', s', e')) = (s' ≡ s) × (e' ≡ e)
  IsTrue name spec path (t, s, e) (IndexOutcome.crashed, (t', s', e')) = e' ≡ e
  IsTrue name none path (t, s, e) (IndexOutcome.stored n checksum, (t', s', e')) = ⊥
  IsTrue name (some spec) none (t, s, e) (IndexOutcome.stored n checksum, (t', s', e')) = ⊥
  IsTrue name (some spec) (some file_path) (t, s, e)
        (IndexOutcome.stored n checksum, (t', s', e')) =
      let uri = from_path env hostname (to_string file_path) in
      let chunks =
        chunks_of F O lower unquote known_type env hostname exists facts engines A C E spec
          (A.get_content checksum t') uri in
      (n ≡ length chunks)
      × ((other : String)
          → get_all C other s' ≡ (
              if other == name
              then drop_if (λ c. c.uri == uri) (get_all C name s) ++ chunks
              else get_all C other s))

  module _ (L : IsLawful C) (name : String) (spec : D) (file_path : FilePath) (s : C.State)
      (e : E.State) (t : T) where
    abbrev file_uri : String
    file_uri = from_path env hostname (to_string file_path)

    -- A report of chunks that are those of the content, whatever becomes of the embeddings.
    stored-IsTrue :
        (chunks : List Chunk) (checksum : String) (t' : T) (e' : E.State)
        → chunks_at spec file_path checksum t' ≡ chunks
        → IsTrue name
            (some spec)
            (some file_path)
            (t, s, e)
            (
              IndexOutcome.stored (length chunks) checksum,
              (t', (replace_uri C name file_uri checksum chunks s).1, e'),
            )
    stored-IsTrue chunks checksum t' e' same =
        rw same (refl, get_all-replace_uri C L name file_uri checksum chunks s)

    store_embeddings-IsTrue :
        (chunks : List Chunk) (checksum : String) (t' : T) (model : Option String)
        → chunks_at spec file_path checksum t' ≡ chunks
        → IsTrue name
            (some spec)
            (some file_path)
            (t, s, e)
            (store_embeddings F O lower unquote known_type env hostname exists facts engines A C E
              name file_uri model spec.embedding_mode file_path chunks checksum
              (t', (replace_uri C name file_uri checksum chunks s).1, e))
    store_embeddings-IsTrue chunks checksum t' none same = stored-IsTrue chunks checksum t' e same
    store_embeddings-IsTrue [] checksum t' (some model) same = stored-IsTrue [] checksum t' e same
    store_embeddings-IsTrue (c ∷ chunks) checksum t' (some model) same = go (
        build_embedding_docs A.text_of name model spec.embedding_mode (c ∷ chunks)
          (A.embed name model spec.embedding_mode file_path (c ∷ chunks)))
      where
        go :
            (built : Answer (List EmbeddingDoc))
            → IsTrue name
                (some spec)
                (some file_path)
                (t, s, e)
                (elim built [
                  | raised error ↦ (
                    IndexOutcome.crashed,
                    (t', (replace_uri C name file_uri checksum (c ∷ chunks) s).1, e),
                  )
                  | answer docs ↦ (
                    IndexOutcome.stored (length (c ∷ chunks)) checksum,
                    (
                      t',
                      (replace_uri C name file_uri checksum (c ∷ chunks) s).1,
                      (replace_embeddings E name model file_uri docs e).1,
                    ),
                  )
                ])
        go (raised error) = refl
        go (answer docs) =
            stored-IsTrue (c ∷ chunks) checksum t'
              (replace_embeddings E name model file_uri docs e).1 same

    store_content-IsTrue :
        (done : Answer String × T)
        → IsTrue name
            (some spec)
            (some file_path)
            (t, s, e)
            (store_content F O lower unquote known_type env hostname exists facts engines A C E name
              spec file_path done
              (s, e))
    store_content-IsTrue (raised error, t') = (refl, refl)
    store_content-IsTrue (answer checksum, t') =
        store_embeddings-IsTrue (chunks_at spec file_path checksum t') checksum t'
          spec.embedding_model refl

    store_chosen-IsTrue :
        (choice : Choice O lower)
        → IsTrue name
            (some spec)
            (some file_path)
            (t, s, e)
            (store_chosen F O lower unquote known_type env hostname exists facts engines A C E name
              spec file_path choice
              (t, s, e))
    store_chosen-IsTrue (Choice.selected selection) =
        elim (Bool-cases (selection.selected_type == "null")) [
          | inl null ↦ rw null (refl, refl)
          | inr null ↦ rw null (store_content-IsTrue (A.cmd_engine spec.engine file_uri t))
        ]
    store_chosen-IsTrue Choice.auto_refused = refl
    store_chosen-IsTrue Choice.unknown_engine = refl
    store_chosen-IsTrue Choice.unsupported = refl
    store_chosen-IsTrue Choice.no_fallback = refl
    store_chosen-IsTrue Choice.missing_target = refl
    store_chosen-IsTrue (Choice.route_to_route target) = refl
    store_chosen-IsTrue (Choice.unknown_type target) = refl

  index_path-IsTrue :
      (L : IsLawful C) (name : String) (spec : Option D) (path : Option FilePath) (w : W)
      → IsTrue name spec path w (
          index_path F O lower unquote known_type env hostname exists facts engines A C E name spec
            path w)
  index_path-IsTrue L name none path (t, s, e) = (refl, refl)
  index_path-IsTrue L name (some spec) none (t, s, e) = refl
  index_path-IsTrue L name (some spec) (some file_path) (t, s, e) =
      elim (Bool-cases (exists file_path)) [
        | inl x ↦ rw x (
            store_chosen-IsTrue L name spec file_path s e t (
              choose F O lower unquote known_type env hostname exists facts engines A C E spec
                file_path))
        | inr x ↦ rw x (refl, refl)
      ]

  -- What the command reports of a document for a configured list of indexes is true of the stores.
  pub index_document-IsTrue :
      (L : IsLawful C) (indexes : Dict String (IndexTarget F.Number)) (name uri : String)
      (w : World F O lower unquote known_type env hostname exists facts engines A C E)
      → IsTrue name
          (lookup name indexes)
          (uri_path env unquote (from_any env hostname none uri))
          w
          (index_document F O lower unquote known_type env hostname exists facts engines A C E
            (some indexes)
            name
            uri
            w)
  unfolding index_document
  index_document-IsTrue L indexes name uri w = index_path-IsTrue L name (lookup name indexes) _ w
