-- ===== src/Move.antt =====
-- `move_document` (wks/services/mv.py) with `MvConfig` (wks/api/mv/MvConfig.py). The file system, git
-- and the vault are records of answers.
pub mod Filename
pub mod Laws
use wks.Common.{
  ℕ, String, ◌<>◌, Bool, true, false, ◌||◌, Option, none, some, List, [], ◌∷◌, ◌++◌, ◌==◌,
  string_eq, nat_eq, list_eq, if◌then◌else◌, Answer, answer, raised, map,
}
use wks.Common.Float.{Float}
use wks.Database.{Collection}
use wks.FilePath.{FilePath, Process, name, parent, to_string, normalize_path, is_relative_to}
use wks.Uri.{uri_path, from_any, from_path}
use wks.Monitor.Explain.{FilterConfig, explain_path}
use wks.Monitor.Sync.{NodeDoc, has_uri, FileSystem, SyncConfig, SyncOutput, sync_uri}
use wks.Search.Service.{FailureKind}
use wks.Move.Filename.{is_valid_filename}

pub record MoveRequest : Type 0 where
  pub source : String
  pub dest : String

pub record MoveResponse : Type 0 where
  pub success : Bool
  pub message : String
  pub failure_kind : Option FailureKind
  pub errors : List String
  pub warnings : List String
  pub source : String
  pub destination : String
  pub database_updated : Bool

-- `_error_response`
abbrev pub error_response : String → FailureKind → String → String → List String → MoveResponse
error_response message failure_kind source dest errors = record {
  success = false;
  message = message;
  failure_kind = some failure_kind;
  errors = errors;
  warnings = [];
  source = source;
  destination = dest;
  database_updated = false;
}

-- What a move asks of its surroundings: `move_into` makes the parent of the destination and moves the
-- file; its result, and that of the steps on the vault, is the text of the exception, if one is raised;
-- `git_root` is `_is_git_tracked`.
pub record Surroundings (Files Vault : Type 0) : Type 0 where
  -- `\d` of a pattern
  pub is_decimal : ℕ → Bool
  pub file_system : Files → FileSystem
  pub git_root : Files → FilePath → Option String
  pub move_into : FilePath → FilePath → Files → Option String × Files
  pub update_link_for_move : FilePath → FilePath → Vault → Answer (Option (String × String)) × Vault
  pub rewrite_wiki_links : String → String → Vault → Option String × Vault
  pub update_edges_for_move : FilePath → FilePath → String → String → Vault → Option String × Vault

-- `is_always_allowed_source`; the settings are normalized when they are loaded.
unfoldable pub is_always_allowed_source : Process → List FilePath → FilePath → Bool
is_always_allowed_source env [] path = false
is_always_allowed_source env (allowed ∷ always_allow_sources) path =
    let resolved = normalize_path env (to_string path) in
    resolved == allowed
    || is_relative_to resolved allowed
    || is_always_allowed_source env always_allow_sources path

-- `trace[-1] if trace else ...`
abbrev pub last_reason : List String → String
last_reason [] = "Not in monitored paths"
last_reason (line ∷ []) = line
last_reason (line ∷ next ∷ trace) = last_reason (next ∷ trace)

module _ (F : Float) (C : Collection (NodeDoc F)) {Files Vault : Type 0}
    (S : Surroundings Files Vault) where
  open C use {State}

  -- All that a move may change.
  abbrev pub World : Type 0
  World = Files × State × Vault

  module _ (env : Process) (wks_home : FilePath) (hostname : String)
      (lower unquote : String → String) (text_of : ℕ → String)
      (always_allow_sources : List FilePath) (cfg : SyncConfig F) where
    -- `_validate_source`, where `none` is no error
    unfoldable pub validate_source : FilePath → FilePath → Files → Option MoveResponse
    validate_source source_path dest_path files =
        let source = to_string source_path in
        let dest = to_string dest_path in
        let (allowed, trace) = explain_path env wks_home cfg.filter source_path in
        let reason = last_reason trace in
        let missing = "Source does not exist: " <> source in
        if (S.file_system files).exists source_path
        then elim (S.git_root files source_path) [
          | some git_root ↦ some (
              error_response ("Cannot move git-tracked file: " <> source) FailureKind.conflict
                source dest
                (("File is tracked by git in repo "
                    <> (git_root
                        <> ". Remove from version control first (git rm --cached) before moving."))
                  ∷ []))
          | none ↦
              if is_always_allowed_source env always_allow_sources source_path || allowed
              then none
              else some (
                  error_response ("Source not monitored: " <> reason) FailureKind.validation source
                    dest
                    (("Source path not monitored: " <> (source <> (". Reason: " <> reason))) ∷ []))
        ]
        else some (error_response missing FailureKind.not_found source dest (missing ∷ []))

    -- `_validate_destination`, where `none` is no error
    unfoldable pub validate_destination : FilePath → FilePath → Files → Option MoveResponse
    validate_destination source_path dest_path files =
        let source = to_string source_path in
        let dest = to_string dest_path in
        let invalid =
          "Invalid filename '"
          <> (name dest_path
              <> ("'. Must follow date-title format: YYYY-Title, YYYY_MM-Title, or YYYY_MM_DD-Title "
                  <> "(e.g., 2026-My_Document.pdf, 2026_02-Project_Notes.txt)")) in
        let (allowed, trace) = explain_path env wks_home cfg.filter (parent dest_path) in
        let reason = last_reason trace in
        if name source_path == name dest_path || is_valid_filename S.is_decimal (name dest_path)
        then if allowed
          then if (S.file_system files).exists dest_path
            then some (
                error_response ("Destination exists (overwriting not allowed): " <> dest)
                  FailureKind.conflict source dest
                  (("Destination exists: " <> (dest <> ". Overwriting is not allowed.")) ∷ []))
            else none
          else some (
              error_response ("Destination parent not monitored: " <> reason) FailureKind.validation
                source dest
                (("Destination parent not monitored: "
                    <> (to_string (parent dest_path) <> (". Reason: " <> reason)))
                  ∷ []))
        else some (error_response invalid FailureKind.validation source dest (invalid ∷ []))

    -- The part of `_update_move_side_effects` for the database, on the files after the move.
    unfoldable pub update_database :
        FilePath → FilePath → String → Files → State → (Bool × List String) × State
    update_database source_path dest_path now files s =
        let old_uri = from_path env hostname (to_string source_path) in
        let (output, s') =
          sync_uri F C env wks_home hostname lower unquote text_of (S.file_system files) cfg now
            false (from_path env hostname (to_string dest_path))
            (C.delete_many s (has_uri F old_uri)) in
        if output.success
        then ((true, []), s')
        else ((false, map (λ e. "Sync warning: " <> e) output.errors), s')

    abbrev pub link_warning : String → List String
    link_warning e = ("Vault link update failed: " <> e) ∷ []

    abbrev pub move_edges :
        FilePath → FilePath → String → String → Option String × Vault → List String × Vault
    move_edges source_path dest_path old_rel new_rel (some e, v) = (link_warning e, v)
    move_edges source_path dest_path old_rel new_rel (none, v) =
        let (error, v') = S.update_edges_for_move source_path dest_path old_rel new_rel v in
        (elim error [ none ↦ [] | some e ↦ link_warning e ], v')

    abbrev pub move_links :
        FilePath → FilePath → Answer (Option (String × String)) × Vault → List String × Vault
    move_links source_path dest_path (raised e, v) = (link_warning e, v)
    move_links source_path dest_path (answer none, v) = ([], v)
    move_links source_path dest_path (answer (some (old_rel, new_rel)), v) =
        move_edges source_path dest_path old_rel new_rel (S.rewrite_wiki_links old_rel new_rel v)

    -- `_update_move_side_effects`
    unfoldable pub update_move_side_effects :
        FilePath
        → FilePath
        → String
        → Files
        → State × Vault
        → (Bool × List String) × (State × Vault)
    update_move_side_effects source_path dest_path now files (s, v) =
        let ((database_updated, warnings), s') =
          update_database source_path dest_path now files s in
        let (vault_warnings, v') =
          move_links source_path dest_path (S.update_link_for_move source_path dest_path v) in
        ((database_updated, warnings ++ vault_warnings), (s', v'))

    -- After the files are moved.
    abbrev pub finish_move :
        MoveRequest
        → FilePath
        → FilePath
        → String
        → Option String × Files
        → State × Vault
        → MoveResponse × World
    finish_move request source_path dest_path now (some e, files) (s, v) =
        let message = "Move failed: " <> e in
        (
          error_response message FailureKind.runtime request.source request.dest (message ∷ []),
          (files, s, v),
        )
    finish_move request source_path dest_path now (none, files) (s, v) =
        let ((database_updated, warnings), (s', v')) =
          update_move_side_effects source_path dest_path now files (s, v) in
        (
          record {
            success = true;
            message = "Moved " <> (name source_path <> (" to " <> to_string dest_path));
            failure_kind = none;
            errors = [];
            warnings = warnings;
            source = to_string source_path;
            destination = to_string dest_path;
            database_updated = database_updated;
          },
          (files, s', v'),
        )

    abbrev pub or_move : Option MoveResponse → MoveResponse × World → World → MoveResponse × World
    or_move (some error) moved w = (error, w)
    or_move none moved w = moved

    -- The `ValueError` of `uri.path`.
    abbrev pub bad_uri : MoveRequest → String → MoveResponse
    bad_uri request uri =
        let e = "Cannot extract local path from non-file URI: " <> uri in
        error_response ("Invalid URI: " <> e) FailureKind.validation request.source request.dest
          (e ∷ [])

    -- From the two addresses and their paths on.
    unfoldable pub move_paths :
        MoveRequest
        → String
        → String
        → Option FilePath
        → String
        → Option FilePath
        → World
        → MoveResponse × World
    move_paths request now source_uri (some source_path) dest_uri (some dest_path) (files, s, v) =
        or_move (validate_source source_path dest_path files)
          (or_move (validate_destination source_path dest_path files)
            (finish_move request source_path dest_path now (S.move_into source_path dest_path files)
              (s, v))
            (files, s, v))
          (files, s, v)
    move_paths request now source_uri none dest_uri dest_path w = (bad_uri request source_uri, w)
    move_paths request now source_uri (some source_path) dest_uri none w =
        (bad_uri request dest_uri, w)

    -- `move_document`; `now` is the time of the sync.
    unfoldable pub move_document : String → MoveRequest → World → MoveResponse × World
    move_document now request w =
        let source_uri = from_any env hostname none request.source in
        let dest_uri = from_any env hostname none request.dest in
        move_paths request now source_uri (uri_path env unquote source_uri) dest_uri
          (uri_path env unquote dest_uri) w
