-- ===== src/Log/Reading.antt =====
-- `read_log_entries` (wks/api/log/read_log_entries.py): the warnings and errors of the log, with
-- expired entries removed from the file.
pub mod Laws
use wks.Common.{
  String, ◌<>◌, Bool, true, false, Option, none, some, List, [], ◌∷◌, ◌++◌, if◌then◌else◌,
}
use wks.Common.Text.{strip, is_empty, has_part, cut_lines}
use wks.Log.Entry.{Level, debug, info, warn, error, match_entry}
use wks.Log.Prune.{LogFile, missing, unreadable, holding, file_text}

-- `datetime`: `none` is the `ValueError` of `fromisoformat`, and the `TypeError` of a comparison of
-- a time that has a time zone with one that has none.
pub record Clock : Type 1 where
  pub Time : Type 0
  pub fromisoformat : String → Option Time
  pub isoformat : Time → String
  pub before : Time → Time → Option Bool

pub record Reading : Type 0 where
  pub warnings : List String
  pub errors : List String
  pub kept_lines : List String

abbrev pub nothing_read : Reading
nothing_read = record { warnings = []; errors = []; kept_lines = [] }

abbrev pub keep : String → Reading → Reading
keep line r = record r { kept_lines = r.kept_lines ++ line ∷ [] }

abbrev pub report_error : String → Reading → Reading
report_error line r = record r { errors = r.errors ++ line ∷ [] }

abbrev pub report_warning : String → Reading → Reading
report_warning line r = record r { warnings = r.warnings ++ line ∷ [] }

-- A kept line with a level.
abbrev pub report_level : Level → String → Reading → Reading
report_level debug line r = r
report_level info line r = r
report_level warn line r = report_warning line r
report_level error line r = report_error line r

module _ (T : Clock) (upper : String → String) where
  open T use {Time}

  -- `entry_time`
  abbrev pub entry_time : Time → String → Time
  entry_time now timestamp = elim (T.fromisoformat timestamp) [ none ↦ now | some t ↦ t ]

  -- `if entry_time < cutoff: continue`
  abbrev pub unless_expired : Option Bool → Reading → Reading → Option Reading
  unless_expired none r kept = none
  unless_expired (some true) r kept = some r
  unless_expired (some false) r kept = some kept

  -- The branches of the loop's body; `cutoffs` is the dictionary from levels to times.
  unfoldable pub read_entry :
      Time → (Level → Time) → String → Reading → Option (String × Level) → Option Reading
  read_entry now cutoffs line r none = some (
      if has_part (upper line) "ERROR"
      then report_error line (keep line r)
      else if has_part (upper line) "WARN"
      then report_warning line (keep line r)
      else keep line r)
  read_entry now cutoffs line r (some (timestamp, level)) =
      unless_expired (T.before (entry_time now timestamp) (cutoffs level)) r
        (report_level level line (keep line r))

  unfoldable pub read_line : Time → (Level → Time) → String → Reading → Option Reading
  read_line now cutoffs line r =
      if is_empty (strip line)
      then some r
      else read_entry now cutoffs (strip line) r (match_entry (strip line))

  unfoldable pub read_lines : Time → (Level → Time) → List String → Reading → Option Reading
  read_lines now cutoffs [] r = some r
  read_lines now cutoffs (line ∷ lines) r = elim (read_line now cutoffs line r) [
    | none ↦ none
    | some r' ↦ read_lines now cutoffs lines r'
  ]

  abbrev access_error : String → List String
  access_error e = ("Log file access error during prune: " <> e) ∷ []

  -- The warnings, the errors and the file afterwards; `none` is the uncaught `TypeError`. Errors
  -- other than `OSError` are not raised by reading and writing.
  unfoldable pub read_log_entries :
      Time
      → (Level → Time)
      → Option (String × LogFile)
      → LogFile
      → Option (List String × List String × LogFile)
  read_log_entries now cutoffs write_error missing = some ([], [], missing)
  read_log_entries now cutoffs write_error (unreadable e) = some (access_error e, [], unreadable e)
  read_log_entries now cutoffs write_error (holding text) =
      elim (read_lines now cutoffs (cut_lines text) nothing_read) [
        | none ↦ none
        | some r ↦ elim write_error [
          | some (e, left) ↦ some (r.warnings ++ access_error e, r.errors, left)
          | none ↦ some (r.warnings, r.errors, holding (file_text r.kept_lines))
        ]
      ]
