-- ===== src/Transform/Prune.antt =====
-- `prune` of wks/api/transform/prune.py: the records of outputs that are gone, and the outputs whose stem
-- is no checksum of a record. The cache directory, `directory`, is the list of the names of its files, which
-- the removals shorten; it has no subdirectories. `elsewhere` is `exists` for all other paths, and `unlink`
-- gives the text of the `OSError`, if there is one. A stem of a file has no wildcards, so that the pattern
-- is a test of the beginning.
pub mod Laws
use wks.Common.{
  ℕ, ◌+◌, ◌-◌, String, ◌<>◌, Bool, true, false, not, ◌&&◌, Option, none, some, List, [], ◌∷◌, ◌++◌,
  map, ◌==◌, string_eq, list_eq, if◌then◌else◌, length, contains, distinct, drop_if, keep_if,
  is_some, Answer, answer, raised,
}
use wks.Common.Text.{starts_with, is_empty}
use wks.Database.{Collection}
use wks.FilePath.{FilePath, Process, stem, to_string}
use wks.Uri.{make_uri, uri_path}

-- A record, as far as the pruning reads it.
pub record TransformDoc : Type 0 where
  pub id : String
  pub checksum : String
  pub cache_uri : String

-- What is returned.
pub record CachePruning : Type 0 where
  pub deleted_count : ℕ
  pub checked_count : ℕ
  pub warnings : List String

-- `exists` may raise an `OSError`.
module _ (env : Process) (unquote : String → String) (elsewhere : FilePath → Answer Bool)
    (unlink : String → Option String) (directory : FilePath) where
  -- `cache_path.exists()`, with these files in the cache directory
  unfoldable pub exists_in : List String → FilePath → Answer Bool
  exists_in cache_dir [] = elsewhere []
  exists_in cache_dir (file ∷ above) =
      if above == directory then answer (contains cache_dir file) else elsewhere (file ∷ above)

  -- Whether the output is there; the text is that of the exception.
  abbrev pub check_path : List String → String → Option FilePath → Answer Bool
  check_path cache_dir cache_uri none =
      raised ("Cannot extract local path from non-file URI: " <> cache_uri)
  check_path cache_dir cache_uri (some path) = exists_in cache_dir path

  abbrev pub check_uri : List String → String → Option String → Answer Bool
  check_uri cache_dir cache_uri none = raised ("Invalid URI format (missing scheme): " <> cache_uri)
  check_uri cache_dir cache_uri (some uri) = check_path cache_dir uri (uri_path env unquote uri)

  -- `cache_path is not None and cache_path.exists()`
  unfoldable pub has_output : List String → String → Answer Bool
  has_output cache_dir cache_uri =
      if is_empty cache_uri
      then answer false
      else check_uri cache_dir cache_uri (make_uri cache_uri)

  abbrev pub is_found : Answer Bool → Bool
  is_found (answer found) = found
  is_found (raised e) = false

  abbrev pub check_warning : String → Answer Bool → List String
  check_warning checksum (answer found) = []
  check_warning checksum (raised e) =
      ("Error checking cache file for " <> (checksum <> (": " <> e))) ∷ []

  -- `stale_db_records`
  unfoldable pub stale_records : List String → List TransformDoc → List String
  stale_records cache_dir [] = []
  stale_records cache_dir (doc ∷ docs) =
      if is_found (has_output cache_dir doc.cache_uri)
      then stale_records cache_dir docs
      else doc.id ∷ stale_records cache_dir docs

  unfoldable pub check_warnings : List String → List TransformDoc → List String
  check_warnings cache_dir [] = []
  check_warnings cache_dir (doc ∷ docs) =
      check_warning doc.checksum (has_output cache_dir doc.cache_uri)
      ++ check_warnings cache_dir docs

  -- `cache_files - db_checksums`
  unfoldable pub orphaned_files : List String → List String → List String
  orphaned_files cache_dir db_checksums =
      drop_if (contains db_checksums) (distinct (map stem cache_dir))

  -- Is the file matched and its removal a success?
  abbrev pub goes : String → String → Bool
  goes checksum file = starts_with file (checksum <> ".") && not (is_some (unlink file))

  abbrev pub unlink_warning : String → Option String → List String
  unlink_warning file none = []
  unlink_warning file (some e) =
      ("Failed to delete orphaned file " <> (to_string (file ∷ directory) <> (": " <> e))) ∷ []

  unfoldable pub unlink_warnings : List String → List String
  unlink_warnings [] = []
  unlink_warnings (file ∷ files) = unlink_warning file (unlink file) ++ unlink_warnings files

  -- The loop over the orphans: the files that are left, and the warnings.
  unfoldable pub remove_orphans : List String → List String → List String × List String
  remove_orphans [] cache_dir = (cache_dir, [])
  remove_orphans (checksum ∷ orphans) cache_dir =
      let matched = keep_if (λ file. starts_with file (checksum <> ".")) cache_dir in
      let (rest, warnings) = remove_orphans orphans (drop_if (goes checksum) cache_dir) in
      (rest, unlink_warnings matched ++ warnings)

  module _ (C : Collection TransformDoc) where
    abbrev pub delete_stale : List String → C.State → C.State
    delete_stale [] s = s
    delete_stale (id ∷ ids) s = C.delete_many s (λ d. contains (id ∷ ids) d.id)

    -- The result, and the files and the records afterwards.
    unfoldable pub prune : List String → C.State → CachePruning × (List String × C.State)
    prune cache_dir s =
        let docs = C.all s in
        let s' = delete_stale (stale_records cache_dir docs) s in
        let (rest, warnings) =
          remove_orphans (orphaned_files cache_dir (map (λ d. d.checksum) docs)) cache_dir in
        (
          record {
            deleted_count = (length docs - length (C.all s')) + (length cache_dir - length rest);
            checked_count = length docs;
            warnings = check_warnings cache_dir docs ++ warnings;
          },
          (rest, s'),
        )
