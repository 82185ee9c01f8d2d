-- ===== src/Index/Commands.antt =====
-- The commands that index a document: `cmd` and `cmd_auto` (wks/api/index/cmd.py and cmd_auto.py) with
-- `build_embedding_docs`. The transform of a document and the model of the embeddings are records of
-- answers; what a raised exception leaves of the world is kept.
pub mod Laws
pub mod Totals
use wks.Common.{
  ℕ, zero, suc, String, ◌<>◌, Bool, true, false, ◌||◌, Option, none, some, List, [], ◌∷◌, ◌++◌,
  ◌==◌, string_eq, nat_eq, list_eq, if◌then◌else◌, length, contains, map, not, Answer, answer,
  raised, ltb, zip,
}
use wks.Common.Dict.{Dict, lookup}
use wks.Common.Float.{Float}
use wks.Database.{Collection}
use wks.FilePath.{FilePath, Process, parents, to_string, name as file_name}
use wks.Uri.{uri_path, from_any, from_path}
use wks.Index.Chunker.{Chunk, chunk}
use wks.Index.Stores.{ChunkDoc, EmbeddingDoc, replace_uri, replace_embeddings}
use wks.Transform.Engines.{Options, FileFacts, Engine, Choice, resolve_engine_selection}

-- What is indexed with which settings; `model` has the name of the embedding model.
pub record IndexTarget (Number : Type 0) : Type 0 where
  pub max_tokens : ℕ
  pub overlap_tokens : ℕ
  pub min_priority : Number
  pub engine : String
  pub embedding_model : Option String
  pub embedding_mode : String

-- What becomes of a document in one index: its number of chunks and its checksum, the text of a failure, or
-- an exception.
pub data IndexOutcome : Type 0 where
  stored : ℕ → String → IndexOutcome
  refused : String → IndexOutcome
  crashed : IndexOutcome

-- What the body of the loop of `cmd_auto` makes of a choice: skip the index, index the document, or stop
-- at an exception that is no `ValueError`.
pub data AutoStep : Type 0 where
  skips indexes_it stops : AutoStep

-- `IndexAutoOutput`, without the address and the priority
pub record AutoOutput : Type 0 where
  pub errors : List String
  pub indexed : List (String × (ℕ × String))
  pub skipped : List String

-- An array of numbers: how many dimensions it has, and its rows.
pub record Embeddings : Type 0 where
  pub ndim : ℕ
  pub rows : List String

-- The engine's command gives the checksum of the content or the text of its failure, and `get_content` the
-- content; `embed` is `build_semantic_embeddings`, with the settings of the index of that name, its model and
-- its mode; `text_of` is `str` of a number.
pub record Transforms (T : Type 0) : Type 0 where
  pub cmd_engine : String → String → T → Answer String × T
  pub get_content : String → T → String
  pub embed : String → String → String → FilePath → List Chunk → Embeddings
  pub text_of : ℕ → String

-- The document of a chunk with its row.
abbrev pub embedding_doc : String → String → String → Chunk × String → EmbeddingDoc
embedding_doc index_name embedding_model embedding_mode (c, row) = record {
  index_name = index_name;
  embedding_model = embedding_model;
  embedding_mode = embedding_mode;
  uri = c.uri;
  chunk_index = c.chunk_index;
  tokens = c.tokens;
  text = c.text;
  embedding = row;
}

unfoldable pub build_embedding_docs :
    (ℕ → String) → String → String → String → List Chunk → Embeddings → Answer (List EmbeddingDoc)
build_embedding_docs text_of index_name embedding_model embedding_mode chunks embeddings =
    if not (embeddings.ndim == 2)
    then raised ("embeddings must be 2D (found ndim=" <> (text_of embeddings.ndim <> ")"))
    else if not (length embeddings.rows == length chunks)
    then raised (
        "embedding rows must match chunks (rows="
        <> (text_of (length embeddings.rows) <> (", chunks=" <> (text_of (length chunks) <> ")"))))
    else answer
        (map (embedding_doc index_name embedding_model embedding_mode) (zip chunks embeddings.rows))

module _ (F : Float) (O : Options) (lower unquote : String → String) (known_type : String → Bool)
    (env : Process) (hostname : String) (exists : FilePath → Bool)
    (facts : FilePath → FileFacts O lower) (engines : Dict String (Engine O lower)) {T : Type 0}
    (A : Transforms T) (C : Collection ChunkDoc) (E : Collection EmbeddingDoc) where
  -- The transforms, the chunks and the embeddings.
  abbrev pub World : Type 0
  World = T × C.State × E.State

  abbrev pub Target : Type 0
  Target = IndexTarget F.Number

  -- `resolve_engine_selection(...)` without overrides
  abbrev pub choose : Target → FilePath → Choice O lower
  choose spec file_path =
      resolve_engine_selection O lower known_type engines spec.engine (facts file_path) []

  -- The chunks of a text. The number of lines is fuel enough, so that `none` does not occur.
  abbrev pub chunks_of : Target → String → String → List Chunk
  chunks_of spec content uri = elim (chunk spec.max_tokens spec.overlap_tokens content uri) [
    | none ↦ []
    | some chunks ↦ chunks
  ]

  -- The last step, from the chunks that are stored.
  abbrev pub store_embeddings :
      String
      → String
      → Option String
      → String
      → FilePath
      → List Chunk
      → String
      → World
      → IndexOutcome × World
  store_embeddings name uri none mode file_path chunks checksum w =
      (IndexOutcome.stored (length chunks) checksum, w)
  store_embeddings name uri (some model) mode file_path [] checksum w =
      (IndexOutcome.stored 0 checksum, w)
  store_embeddings name uri (some model) mode file_path (c ∷ chunks) checksum (t, s, e) =
      elim (build_embedding_docs A.text_of name model mode (c ∷ chunks)
        (A.embed name model mode file_path (c ∷ chunks))) [
          | raised error ↦ (IndexOutcome.crashed, (t, s, e))
          | answer docs ↦ (
            IndexOutcome.stored (length (c ∷ chunks)) checksum,
            (t, s, (replace_embeddings E name model uri docs e).1),
          )
        ]

  -- From the result of the transform on.
  abbrev pub store_content :
      String → Target → FilePath → Answer String × T → C.State × E.State → IndexOutcome × World
  store_content name spec file_path (raised error, t) (s, e) =
      (IndexOutcome.refused ("Transform failed: " <> error), (t, s, e))
  store_content name spec file_path (answer checksum, t) (s, e) =
      let uri = from_path env hostname (to_string file_path) in
      let chunks = chunks_of spec (A.get_content checksum t) uri in
      store_embeddings name uri spec.embedding_model spec.embedding_mode file_path chunks checksum
        (t, (replace_uri C name uri checksum chunks s).1, e)

  abbrev pub store_chosen :
      String → Target → FilePath → Choice O lower → World → IndexOutcome × World
  store_chosen name spec file_path (Choice.selected selection) (t, s, e) =
      let done = A.cmd_engine spec.engine (from_path env hostname (to_string file_path)) t in
      if selection.selected_type == "null"
      then (
        IndexOutcome.refused (
            "No transform available for index '"
            <> (name <> ("' and file " <> file_name file_path))),
        (t, s, e),
      )
      else store_content name spec file_path done (s, e)
  store_chosen name spec file_path Choice.auto_refused w = (IndexOutcome.crashed, w)
  store_chosen name spec file_path Choice.unknown_engine w = (IndexOutcome.crashed, w)
  store_chosen name spec file_path Choice.unsupported w = (IndexOutcome.crashed, w)
  store_chosen name spec file_path Choice.no_fallback w = (IndexOutcome.crashed, w)
  store_chosen name spec file_path Choice.missing_target w = (IndexOutcome.crashed, w)
  store_chosen name spec file_path (Choice.route_to_route target) w = (IndexOutcome.crashed, w)
  store_chosen name spec file_path (Choice.unknown_type target) w = (IndexOutcome.crashed, w)

  -- From the settings and the path on; no path is the `ValueError` of `uri.path`.
  abbrev pub index_path : String → Option Target → Option FilePath → World → IndexOutcome × World
  index_path name none path w = (IndexOutcome.refused ("Unknown index: " <> name), w)
  index_path name (some spec) none w = (IndexOutcome.crashed, w)
  index_path name (some spec) (some file_path) w =
      if exists file_path
      then store_chosen name spec file_path (choose spec file_path) w
      else (IndexOutcome.refused ("File not found: " <> to_string file_path), w)

  -- `cmd`
  unfoldable pub index_document :
      Option (Dict String Target) → String → String → World → IndexOutcome × World
  index_document none name uri w = (IndexOutcome.refused "Index not configured", w)
  index_document (some indexes) name uri w =
      index_path name (lookup name indexes) (uri_path env unquote (from_any env hostname none uri))
        w

  abbrev pub step_of_choice : Choice O lower → AutoStep
  step_of_choice (Choice.selected selection) =
      if selection.selected_type == "null" then skips else indexes_it
  step_of_choice Choice.auto_refused = skips
  step_of_choice Choice.unknown_engine = skips
  step_of_choice Choice.unsupported = skips
  step_of_choice Choice.no_fallback = skips
  step_of_choice Choice.missing_target = stops
  step_of_choice (Choice.route_to_route target) = skips
  step_of_choice (Choice.unknown_type target) = skips

  abbrev pub step_of : F.Number → FilePath → Target → AutoStep
  step_of priority file_path spec =
      if F.lt priority spec.min_priority then skips else step_of_choice (choose spec file_path)

  -- What is noted of the document in one index; `none` is an exception.
  abbrev pub note_outcome : String → IndexOutcome × World → AutoOutput → Option AutoOutput × World
  note_outcome name (IndexOutcome.stored n checksum, w) out =
      (some (record out { indexed = out.indexed ++ (name, (n, checksum)) ∷ [] }), w)
  note_outcome name (IndexOutcome.refused result, w) out = (
    some (record out { errors = out.errors ++ ("Index '" <> (name <> ("': " <> result))) ∷ [] }),
    w,
  )
  note_outcome name (IndexOutcome.crashed, w) out = (none, w)

  abbrev pub carry_out :
      Dict String Target
      → String
      → String
      → AutoStep
      → AutoOutput
      → World
      → Option AutoOutput × World
  carry_out indexes uri name skips out w =
      (some (record out { skipped = out.skipped ++ name ∷ [] }), w)
  carry_out indexes uri name indexes_it out w =
      note_outcome name (index_document (some indexes) name uri w) out
  carry_out indexes uri name stops out w = (none, w)

  abbrev pub continue_with :
      Option AutoOutput × World
      → (AutoOutput → World → Option AutoOutput × World)
      → Option AutoOutput × World
  continue_with (none, w) next = (none, w)
  continue_with (some out, w) next = next out w

  -- The loop of `cmd_auto` over the indexes that are left.
  unfoldable pub auto_loop :
      Dict String Target
      → String
      → F.Number
      → FilePath
      → Dict String Target
      → AutoOutput
      → World
      → Option AutoOutput × World
  auto_loop indexes uri priority file_path [] out w = (some out, w)
  auto_loop indexes uri priority file_path ((name, spec) ∷ rest) out w =
      continue_with (carry_out indexes uri name (step_of priority file_path spec) out w)
        (λ out' w'. auto_loop indexes uri priority file_path rest out' w')

  -- `IndexAutoOutput(errors=errors, ..., indexed=[], skipped=[])`
  abbrev pub none_indexed : List String → AutoOutput
  none_indexed errors = record { errors = errors; indexed = []; skipped = [] }

  -- `cmd_auto`, where `priority_of` is `calculate_priority` with the settings of the monitor.
  abbrev pub auto_path :
      FilePath
      → (FilePath → F.Number)
      → Dict String Target
      → String
      → Option FilePath
      → World
      → Option AutoOutput × World
  auto_path cache_dir priority_of indexes uri none w = (none, w)
  auto_path cache_dir priority_of indexes uri (some file_path) w =
      if file_path == cache_dir || contains (parents file_path) cache_dir
      then (some (none_indexed []), w)
      else if exists file_path
      then auto_loop indexes uri (priority_of file_path) file_path indexes (none_indexed []) w
      else (some (none_indexed (("File not found: " <> to_string file_path) ∷ [])), w)

  unfoldable pub auto_index :
      FilePath
      → (FilePath → F.Number)
      → Option (Dict String Target)
      → String
      → World
      → Option AutoOutput × World
  auto_index cache_dir priority_of none uri w = (some (none_indexed []), w)
  auto_index cache_dir priority_of (some indexes) uri w =
      auto_path cache_dir priority_of indexes uri
        (uri_path env unquote (from_any env hostname none uri)) w
