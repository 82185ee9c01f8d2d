-- ===== src/Log/Status.antt =====
-- `cmd_status` (wks/api/log/cmd_status.py): counts the entries of the log, and removes expired ones
-- on the way. The progress steps, the path and the size of the file are left out.
pub mod Laws
use wks.Common.{
  ℕ, suc, String, ◌<>◌, Bool, true, false, Option, none, some, List, [], ◌∷◌, ◌++◌, if◌then◌else◌,
}
use wks.Common.Text.{strip, is_empty, has_part, cut_lines, text_before}
use wks.Log.Entry.{Level, debug, info, warn, error, match_entry}
use wks.Log.Prune.{LogFile, missing, unreadable, holding, file_text}
use wks.Log.Reading.{Clock, entry_time}

-- `counts`
pub record EntryCounts : Type 0 where
  pub debug_count : ℕ
  pub info_count : ℕ
  pub warn_count : ℕ
  pub error_count : ℕ

abbrev pub no_entries : EntryCounts
no_entries = record { debug_count = 0; info_count = 0; warn_count = 0; error_count = 0 }

-- `counts[level_key] += 1`
abbrev pub count_level : Level → EntryCounts → EntryCounts
count_level debug c = record c { debug_count = suc c.debug_count }
count_level info c = record c { info_count = suc c.info_count }
count_level warn c = record c { warn_count = suc c.warn_count }
count_level error c = record c { error_count = suc c.error_count }

-- What the loop changes.
pub record Survey : Type 0 where
  pub counts : EntryCounts
  pub kept_lines : List String
  pub oldest_entry : Option String
  pub newest_entry : Option String

abbrev pub nothing_counted : Survey
nothing_counted = record {
  counts = no_entries;
  kept_lines = [];
  oldest_entry = none;
  newest_entry = none;
}

-- `LogStatusOutput`, with `result_obj.success`
pub record LogStatusOutput : Type 0 where
  pub success : Bool
  pub errors : List String
  pub entry_counts : EntryCounts
  pub oldest_entry : Option String
  pub newest_entry : Option String

abbrev pub older : String → Option String → Option String
older ts none = some ts
older ts (some oldest) = if text_before ts oldest then some ts else some oldest

abbrev pub newer : String → Option String → Option String
newer ts none = some ts
newer ts (some newest) = if text_before newest ts then some ts else some newest

module _ (T : Clock) (upper : String → String) where
  open T use {Time}

  -- A line without a level counts for the first level that it names.
  abbrev pub count_other : String → EntryCounts → EntryCounts
  count_other line c =
      if has_part (upper line) "DEBUG"
      then count_level debug c
      else if has_part (upper line) "INFO"
      then count_level info c
      else if has_part (upper line) "WARN"
      then count_level warn c
      else if has_part (upper line) "ERROR"
      then count_level error c
      else c

  abbrev pub survey_entry : Level → String → String → Survey → Survey
  survey_entry level ts line s = record {
    counts = count_level level s.counts;
    kept_lines = s.kept_lines ++ line ∷ [];
    oldest_entry = older ts s.oldest_entry;
    newest_entry = newer ts s.newest_entry;
  }

  abbrev pub unless_old : Option Bool → Survey → Survey → Option Survey
  unless_old none s kept = none
  unless_old (some true) s kept = some s
  unless_old (some false) s kept = some kept

  -- The branches of the loop's body.
  unfoldable pub survey_line :
      Time → (Level → Time) → String → Survey → Option (String × Level) → Option Survey
  survey_line now cutoffs line s none =
      some (record s { counts = count_other line s.counts; kept_lines = s.kept_lines ++ line ∷ [] })
  survey_line now cutoffs line s (some (timestamp, level)) =
      let t = entry_time T upper now timestamp in
      unless_old (T.before t (cutoffs level)) s (survey_entry level (T.isoformat t) line s)

  unfoldable pub survey_lines : Time → (Level → Time) → List String → Survey → Option Survey
  survey_lines now cutoffs [] s = some s
  survey_lines now cutoffs (line ∷ lines) s =
      if is_empty (strip line)
      then survey_lines now cutoffs lines s
      else elim (survey_line now cutoffs (strip line) s (match_entry (strip line))) [
        | none ↦ none
        | some s' ↦ survey_lines now cutoffs lines s'
      ]

  -- `left` is the file that a write leaves which raises; `cmd_status` goes on without a word.
  unfoldable pub cmd_status :
      Time → (Level → Time) → Option LogFile → LogFile → Option (LogStatusOutput × LogFile)
  cmd_status now cutoffs failed_write missing = some (
    record {
      success = true;
      errors = [];
      entry_counts = no_entries;
      oldest_entry = none;
      newest_entry = none;
    },
    missing,
  )
  cmd_status now cutoffs failed_write (unreadable e) = some (
    record {
      success = false;
      errors = e ∷ [];
      entry_counts = no_entries;
      oldest_entry = none;
      newest_entry = none;
    },
    unreadable e,
  )
  cmd_status now cutoffs failed_write (holding text) =
      elim (survey_lines now cutoffs (cut_lines text) nothing_counted) [
        | none ↦ none
        | some s ↦ some (
          record {
            success = true;
            errors = [];
            entry_counts = s.counts;
            oldest_entry = s.oldest_entry;
            newest_entry = s.newest_entry;
          },
          elim failed_write [ some left ↦ left | none ↦ holding (file_text s.kept_lines) ],
        )
      ]
