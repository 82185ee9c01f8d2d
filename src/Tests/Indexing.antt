-- ===== src/Tests/Indexing.antt =====
-- Runs of the stores and the commands of wks/api/index, and their theorems at concrete input.
use wks.Common.{
  ℕ, String, ◌≡◌, refl, Bool, true, false, Option, none, some, List, [], ◌∷◌, ◌++◌, ◌==◌, string_eq,
  nat_eq, map, drop_if, if◌then◌else◌, answer,
}
use wks.Common.Dict.{Dict, lookup}
use wks.Database.{Collection}
use wks.Database.Listed.{listed, listed-IsLawful}
use wks.FilePath.{FilePath}
use wks.Uri.{uri_path, from_any}
use wks.Index.Chunker.{Chunk}
use wks.Index.Stores.{ChunkDoc, EmbeddingDoc, get_all, replace_uri, collect_uris}
use wks.Index.Stores.Laws.{get_all-replace_uri}
use wks.Transform.Engines.{Options, FileFacts, Engine, plain}
use wks.Index.Commands.{IndexTarget, Transforms, index_document, auto_loop, none_indexed}
use wks.Index.Commands.Laws.{IsTrue, index_document-IsTrue}
use wks.Index.Commands.Totals.{HasTotal, auto_loop-HasTotal}
use wks.Tests.Monitor.{process, note, whole}

abbrev chunks : Collection ChunkDoc
chunks = listed ChunkDoc

abbrev embeddings : Collection EmbeddingDoc
embeddings = listed EmbeddingDoc

abbrev stored_doc : String → String → ChunkDoc
stored_doc index_name uri = record {
  index_name = index_name;
  uri = uri;
  checksum = "old";
  chunk_index = 0;
  text = "old text";
  tokens = 2;
  is_continuation = false;
}

abbrev before : List ChunkDoc
before =
    stored_doc "main" "file://h/a.md"
    ∷ stored_doc "main" "file://h/b.md"
    ∷ stored_doc "other" "file://h/a.md"
    ∷ []

abbrev fresh : Chunk
fresh = record {
  text = "new";
  uri = "file://h/a.md";
  chunk_index = 0;
  tokens = 1;
  is_continuation = false;
}

abbrev main : String
main = "main"

abbrev a_uri : String
a_uri = "file://h/a.md"

get_all-replace_uri_example :
    get_all chunks "main" (replace_uri chunks "main" "file://h/a.md" "new" (fresh ∷ []) before).1
    ≡ (if main == main
        then drop_if (λ (c : Chunk). c.uri == a_uri) (get_all chunks "main" before) ++ fresh ∷ []
        else get_all chunks "main" before)
get_all-replace_uri_example =
    get_all-replace_uri chunks (listed-IsLawful ChunkDoc) "main" "file://h/a.md" "new" (fresh ∷ [])
      before "main"

-- A limit of 0 is met after one address.
limit_runs : collect_uris (some 0) [] before ≡ "file://h/a.md" ∷ []
unfolding collect_uris
limit_runs = refl

abbrev options : Options
options = record { Value = String; auto = "auto"; message = "binary" }

abbrev same : String → String
same text = text

abbrev facts : FilePath → FileFacts options same
facts path = record {
  suffix = ".md";
  mime_type = "text/markdown";
  is_utf8_text = true;
  kind = "text";
  has_language = λ o. false;
}

abbrev engines : Dict String (Engine options same)
engines =
    (
      "textpass",
      plain (record {
        engine_type = "textpass";
        data_options = [];
        supported_types = some (".md" ∷ []);
      }),
    )
    ∷ []

abbrev transforms : Transforms ℕ
transforms = record {
  cmd_engine = λ engine uri t. (answer "new", t);
  get_content = λ checksum t. "one two\nthree\n";
  embed = λ name model mode path cs. record { ndim = 2; rows = map (λ c. "v") cs };
  text_of = λ n. "n";
}

abbrev target : Option String → String → IndexTarget ℕ
target model engine = record {
  max_tokens = 3;
  overlap_tokens = 0;
  min_priority = 1;
  engine = engine;
  embedding_model = model;
  embedding_mode = "text";
}

abbrev indexes : Dict String (IndexTarget ℕ)
indexes = ("main", target (some "m") "textpass") ∷ ("other", target none "missing") ∷ []

abbrev anywhere : FilePath → Bool
anywhere path = true

abbrev world : ℕ × List ChunkDoc × List EmbeddingDoc
world = (0, before, [])

index_document-IsTrue_example :
    IsTrue whole options same same
      (λ kind. true)
      process
      "h"
      anywhere
      facts
      engines
      transforms
      chunks
      embeddings
      "main"
      (lookup "main" indexes)
      (uri_path process same (from_any process "h" none "/home/u/docs/a.md"))
      world
      (index_document whole options same same
        (λ kind. true)
        process
        "h"
        anywhere
        facts
        engines
        transforms
        chunks
        embeddings
        (some indexes)
        "main"
        "/home/u/docs/a.md"
        world)
index_document-IsTrue_example =
    index_document-IsTrue whole options same same (λ kind. true) process "h" anywhere facts engines
      transforms chunks embeddings (listed-IsLawful ChunkDoc) indexes "main" "/home/u/docs/a.md"
      world

auto_loop-HasTotal_example :
    HasTotal 2
      (auto_loop whole options same same
        (λ kind. true)
        process
        "h"
        anywhere
        facts
        engines
        transforms
        chunks
        embeddings
        indexes
        "/home/u/docs/a.md"
        5
        note
        indexes
        (none_indexed whole options same same
          (λ kind. true)
          process
          "h"
          anywhere
          facts
          engines
          transforms
          chunks
          embeddings
          [])
        world).0
auto_loop-HasTotal_example =
    auto_loop-HasTotal whole options same same (λ kind. true) process "h" anywhere facts engines
      transforms chunks embeddings indexes "/home/u/docs/a.md" 5 note world
