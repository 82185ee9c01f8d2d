-- ===== src/Log/Status/Laws.antt =====
-- The status command of the log against the reader of the daemon (wks/api/log/cmd_status.py and
-- read_log_entries.py).
use wks.Common.{
  String, ◌≡◌, refl, Bool, true, false, Option, none, some, List, [], ◌∷◌, ◌++◌, arith, ap,
  if◌then◌else◌,
}
use wks.Common.Text.{strip, is_empty, cut_lines}
use wks.Log.Entry.{Level, debug, info, warn, error, match_entry}
use wks.Log.Prune.{LogFile, holding, missing, unreadable, file_text}
use wks.Log.Reading.{
  Clock, Reading, nothing_read, entry_time, unless_expired, read_entry, read_line, read_lines,
  read_log_entries, report_level, keep,
}
use wks.Log.Status.{
  Survey, nothing_counted, survey_entry, unless_old, survey_line, survey_lines, cmd_status,
}

module _ (T : Clock) (upper : String → String) (now : T.Time) (cutoffs : Level → T.Time) where
  -- Both loops failed, or both kept the same lines.
  abbrev Agree : Option Survey → Option Reading → Type 0
  Agree none none = Unit
  Agree none (some r) = ⊥
  Agree (some s) none = ⊥
  Agree (some s) (some r) = s.kept_lines ≡ r.kept_lines

  report_level-kept :
      (level : Level) (line : String) (r : Reading)
      → (report_level level line r).kept_lines ≡ r.kept_lines
  report_level-kept debug line r = refl
  report_level-kept info line r = refl
  report_level-kept warn line r = refl
  report_level-kept error line r = refl

  unless_old-Agree :
      (expired : Option Bool) (level : Level) (ts line : String) (s : Survey) (r : Reading)
      → s.kept_lines ≡ r.kept_lines
      → Agree
          (unless_old T upper expired s (survey_entry T upper level ts line s))
          (unless_expired T upper expired r (report_level level line (keep line r)))
  unless_old-Agree none level ts line s r h = tt
  unless_old-Agree (some true) level ts line s r h = h
  unless_old-Agree (some false) level ts line s r h =
      rw (report_level-kept level line (keep line r)) (ap (λ x. x ++ line ∷ []) h)

  survey_line-Agree :
      (line : String) (s : Survey) (r : Reading) (entry : Option (String × Level))
      → s.kept_lines ≡ r.kept_lines
      → Agree
          (survey_line T upper now cutoffs line s entry)
          (read_entry T upper now cutoffs line r entry)
  unfolding survey_line read_entry
  survey_line-Agree line s r none h = ground arith
  survey_line-Agree line s r (some (timestamp, level)) h =
      unless_old-Agree (T.before (entry_time T upper now timestamp) (cutoffs level)) level
        (T.isoformat (entry_time T upper now timestamp)) line s r h

  -- The rest of both loops.
  abbrev Onward : List String → Type 0
  Onward lines =
      (s : Survey) (r : Reading)
      → s.kept_lines ≡ r.kept_lines
      → Agree (survey_lines T upper now cutoffs lines s) (read_lines T upper now cutoffs lines r)

  rest-Agree :
      (lines : List String) (o : Option Survey) (p : Option Reading)
      → Onward lines
      → Agree o p
      → Agree
          (elim o [ none ↦ none | some s ↦ survey_lines T upper now cutoffs lines s ])
          (elim p [ none ↦ none | some r ↦ read_lines T upper now cutoffs lines r ])
  rest-Agree lines none none go h = tt
  rest-Agree lines none (some r) go h = absurd h
  rest-Agree lines (some s) none go h = absurd h
  rest-Agree lines (some s) (some r) go h = go s r h

  stripped-Agree :
      (line : String) (lines : List String) (s : Survey) (r : Reading) (blank : Bool)
      → Onward lines
      → s.kept_lines ≡ r.kept_lines
      → Agree
          (if blank
            then survey_lines T upper now cutoffs lines s
            else elim (survey_line T upper now cutoffs line s (match_entry line)) [
              | none ↦ none
              | some s' ↦ survey_lines T upper now cutoffs lines s'
            ])
          (elim (if blank
            then some r
            else read_entry T upper now cutoffs line r (match_entry line)) [
              | none ↦ none
              | some r' ↦ read_lines T upper now cutoffs lines r'
            ])
  stripped-Agree line lines s r true go h = go s r h
  stripped-Agree line lines s r false go h =
      rest-Agree lines (survey_line T upper now cutoffs line s (match_entry line))
        (read_entry T upper now cutoffs line r (match_entry line)) go
        (survey_line-Agree line s r (match_entry line) h)

  survey_lines-Agree : (lines : List String) → Onward lines
  unfolding survey_lines read_lines read_line
  survey_lines-Agree [] s r h = h
  survey_lines-Agree (line ∷ lines) s r h =
      stripped-Agree (strip line) lines s r (is_empty (strip line)) (survey_lines-Agree lines) h

  -- The files that the two runs leave: both runs raise, or they leave the same file.
  abbrev pub file_after_status : LogFile → Option LogFile
  file_after_status file = elim (cmd_status T upper now cutoffs none file) [
    | none ↦ none
    | some (output, left) ↦ some left
  ]

  abbrev pub file_after_reading : LogFile → Option LogFile
  file_after_reading file = elim (read_log_entries T upper now cutoffs none file) [
    | none ↦ none
    | some (warnings, errors, left) ↦ some left
  ]

  same_file :
      (text : String) (o : Option Survey) (p : Option Reading)
      → survey_lines T upper now cutoffs (cut_lines text) nothing_counted ≡ o
      → read_lines T upper now cutoffs (cut_lines text) nothing_read ≡ p
      → Agree o p
      → file_after_status (holding text) ≡ file_after_reading (holding text)
  unfolding cmd_status read_log_entries
  same_file text none none e e' h = ground arith
  same_file text none (some r) e e' h = absurd h
  same_file text (some s) none e e' h = absurd h
  same_file text (some s) (some r) e e' h = ground (arith, ap file_text h)

  -- With the same cutoffs, and where the file can be written, the status command and
  -- `read_log_entries` leave the same log file, whatever stood in it, or both raise.
  pub cmd_status-read_log_entries :
      (file : LogFile) → file_after_status file ≡ file_after_reading file
  unfolding cmd_status read_log_entries
  cmd_status-read_log_entries missing = refl
  cmd_status-read_log_entries (unreadable e) = refl
  cmd_status-read_log_entries (holding text) =
      same_file text (survey_lines T upper now cutoffs (cut_lines text) nothing_counted)
        (read_lines T upper now cutoffs (cut_lines text) nothing_read) refl refl
        (survey_lines-Agree (cut_lines text) nothing_counted nothing_read refl)
