-- ===== src/Log/Prune.antt =====
-- `cmd_prune` (wks/api/log/cmd_prune.py). `upper` is `str.upper`. The progress steps and the
-- announcement are left out.
pub mod Laws
use wks.Common.{
  ℕ, suc, ◌+◌, String, ◌<>◌, Bool, true, false, ◌&&◌, Option, none, some, List, [], ◌∷◌, ◌++◌,
  if◌then◌else◌,
}
use wks.Common.Text.{strip, is_empty, has_part, cut_lines, join}
use wks.Log.Entry.{Level, debug, info, warn, error, match_entry}

-- The arguments of the command.
pub record Flags : Type 0 where
  pub prune_info : Bool
  pub prune_warnings : Bool
  pub prune_errors : Bool
  pub prune_debug : Bool

-- The counters and the list that the loop changes.
pub record Progress : Type 0 where
  pub pruned_debug : ℕ
  pub pruned_info : ℕ
  pub pruned_warnings : ℕ
  pub pruned_errors : ℕ
  pub kept_lines : List String

abbrev pub start : Progress
start = record {
  pruned_debug = 0;
  pruned_info = 0;
  pruned_warnings = 0;
  pruned_errors = 0;
  kept_lines = [];
}

-- The log file: it may be missing, and reading it may raise.
pub data LogFile : Type 0 where
  missing : LogFile
  unreadable : String → LogFile
  holding : String → LogFile

-- `LogPruneOutput`, with `result_obj.success`
pub record LogPruneOutput : Type 0 where
  pub success : Bool
  pub errors : List String
  pub pruned_debug : ℕ
  pub pruned_info : ℕ
  pub pruned_warnings : ℕ
  pub pruned_errors : ℕ
  pub message : String

abbrev prune_failed : Bool → List String → String → LogPruneOutput
prune_failed success errors message = record {
  success = success;
  errors = errors;
  pruned_debug = 0;
  pruned_info = 0;
  pruned_warnings = 0;
  pruned_errors = 0;
  message = message;
}

-- `"\n".join(kept_lines) + "\n" if kept_lines else ""`
abbrev pub file_text : List String → String
file_text [] = ""
file_text (line ∷ more) = join "\n" (line ∷ more) <> "\n"

abbrev pub count_pruned : Level → Progress → Progress
count_pruned debug p = record p { pruned_debug = suc p.pruned_debug }
count_pruned info p = record p { pruned_info = suc p.pruned_info }
count_pruned warn p = record p { pruned_warnings = suc p.pruned_warnings }
count_pruned error p = record p { pruned_errors = suc p.pruned_errors }

abbrev pub keep_line : String → Progress → Progress
keep_line line p = record p { kept_lines = p.kept_lines ++ line ∷ [] }

-- The branch for a line with a level.
unfoldable pub prune_level : Flags → Level → String → Progress → Progress
prune_level flags debug line p =
    if flags.prune_debug then count_pruned debug p else keep_line line p
prune_level flags info line p = if flags.prune_info then count_pruned info p else keep_line line p
prune_level flags warn line p =
    if flags.prune_warnings then count_pruned warn p else keep_line line p
prune_level flags error line p =
    if flags.prune_errors then count_pruned error p else keep_line line p

module _ (upper : String → String) where
  -- The branch for any other line: the first word with its flag set.
  unfoldable pub prune_other : Flags → String → Progress → Progress
  prune_other flags line p =
      if has_part (upper line) "DEBUG" && flags.prune_debug
      then count_pruned debug p
      else if has_part (upper line) "INFO" && flags.prune_info
      then count_pruned info p
      else if has_part (upper line) "WARN" && flags.prune_warnings
      then count_pruned warn p
      else if has_part (upper line) "ERROR" && flags.prune_errors
      then count_pruned error p
      else keep_line line p

  abbrev pub prune_entry : Flags → String → Progress → Option (String × Level) → Progress
  prune_entry flags line p none = prune_other flags line p
  prune_entry flags line p (some (timestamp, level)) = prune_level flags level line p

  -- The body of the loop.
  unfoldable pub prune_line : Flags → String → Progress → Progress
  prune_line flags line p =
      if is_empty (strip line)
      then p
      else prune_entry flags (strip line) p (match_entry (strip line))

  unfoldable pub prune_lines : Flags → List String → Progress → Progress
  prune_lines flags [] p = p
  prune_lines flags (line ∷ lines) p = prune_lines flags lines (prune_line flags line p)

  -- `text_of` is `str` of a number, and `write_error` what writing the file raises, with the file that
  -- it leaves. The second component of the result is the file afterwards.
  unfoldable pub cmd_prune :
      (ℕ → String) → Option (String × LogFile) → Flags → LogFile → LogPruneOutput × LogFile
  cmd_prune text_of write_error flags missing = (prune_failed true [] "No log file found", missing)
  cmd_prune text_of write_error flags (unreadable e) =
      (prune_failed false (e ∷ []) ("Failed to read log: " <> e), unreadable e)
  cmd_prune text_of write_error flags (holding text) =
      let p = prune_lines flags (cut_lines text) start in
      elim write_error [
        | some (e, left) ↦ (prune_failed false (e ∷ []) ("Failed to write log: " <> e), left)
        | none ↦ (
          record {
            success = true;
            errors = [];
            pruned_debug = p.pruned_debug;
            pruned_info = p.pruned_info;
            pruned_warnings = p.pruned_warnings;
            pruned_errors = p.pruned_errors;
            message =
                "Pruned "
                <> (text_of (p.pruned_debug + p.pruned_info + p.pruned_warnings + p.pruned_errors)
                    <> " log entries");
          },
          holding (file_text p.kept_lines),
        )
      ]
