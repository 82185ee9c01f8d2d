-- ===== src/Log/Prune/Laws.antt =====
-- The log file after its pruning, and the counts (wks/api/log/cmd_prune.py).
use wks.Common.{
  ℕ, ◌+◌, String, ◌≡◌, refl, Bool, true, false, ◌&&◌, ◌||◌, Option, none, some, List, [], ◌∷◌, ◌++◌,
  arith, length, length-append, if◌then◌else◌, drop_if, append_assoc, append-nil, sym, ap,
}
use wks.Common.Text.{strip, is_empty, has_part, cut_lines}
use wks.Log.Entry.{Level, debug, info, warn, error, match_entry, stripped_lines}
use wks.Log.Prune.{
  Flags, Progress, prune_level, prune_other, prune_line, prune_entry, prune_lines, start, cmd_prune,
  file_text, holding, LogPruneOutput,
}

abbrev pub is_asked : Flags → Level → Bool
is_asked flags debug = flags.prune_debug
is_asked flags info = flags.prune_info
is_asked flags warn = flags.prune_warnings
is_asked flags error = flags.prune_errors

abbrev pub counted : LogPruneOutput → ℕ
counted out = out.pruned_debug + out.pruned_info + out.pruned_warnings + out.pruned_errors

abbrev total : Progress → ℕ
total p = p.pruned_debug + p.pruned_info + p.pruned_warnings + p.pruned_errors

-- One line: it stays at the end, or one more is counted.
abbrev Verdict : Bool → String → Progress → Progress → Type 0
Verdict gone line p q =
    (q.kept_lines ≡ p.kept_lines ++ (if gone then [] else line ∷ []))
    × (total q ≡ total p + (if gone then 1 else 0))

module _ (upper : String → String) (flags : Flags) where
  abbrev names_asked : String → Level → String → Bool
  names_asked word level line = has_part (upper line) word && is_asked flags level

  abbrev is_pruned_entry : String → Option (String × Level) → Bool
  is_pruned_entry line none =
      names_asked "DEBUG" debug line
      || names_asked "INFO" info line
      || names_asked "WARN" warn line
      || names_asked "ERROR" error line
  is_pruned_entry line (some (timestamp, level)) = is_asked flags level

  -- A line goes if its level is asked for; a line without a level goes if it names one that is.
  abbrev pub is_pruned : String → Bool
  is_pruned line = is_pruned_entry line (match_entry line)

  prune_level_lem :
      (level : Level) (line : String) (p : Progress)
      → Verdict (is_asked flags level) line p (prune_level flags level line p)
  unfolding prune_level
  prune_level_lem debug line p = ground (arith, append-nil p.kept_lines)
  prune_level_lem info line p = ground (arith, append-nil p.kept_lines)
  prune_level_lem warn line p = ground (arith, append-nil p.kept_lines)
  prune_level_lem error line p = ground (arith, append-nil p.kept_lines)

  prune_entry_lem :
      (line : String) (p : Progress) (entry : Option (String × Level))
      → Verdict (is_pruned_entry line entry) line p (prune_entry upper flags line p entry)
  unfolding prune_other
  prune_entry_lem line p none = ground (arith, append-nil p.kept_lines)
  prune_entry_lem line p (some (timestamp, level)) = prune_level_lem level line p

  -- The lines that stay after those before them, and how many more are counted.
  abbrev Outcome : List String → Progress → Progress → Type 0
  Outcome stripped p q =
      (q.kept_lines ≡ p.kept_lines ++ drop_if is_pruned stripped)
      × (length q.kept_lines + total q ≡ length p.kept_lines + total p + length stripped)

  Outcome-cons :
      (line : String) (stripped : List String) (p q r : Progress)
      → (gone : Bool) → is_pruned line ≡ gone
      → Verdict gone line p q
      → Outcome stripped q r
      → Outcome (line ∷ stripped) p r
  Outcome-cons line stripped p q r true e (kept, counted) (kept', counted') = (
    rw (e, kept', kept) (ap (λ x. x ++ drop_if is_pruned stripped) (append-nil p.kept_lines)),
    omega (arith, counted, counted', ap length kept, length-append p.kept_lines []),
  )
  Outcome-cons line stripped p q r false e (kept, counted) (kept', counted') = (
    rw (e, kept', kept) (append_assoc p.kept_lines (line ∷ []) (drop_if is_pruned stripped)),
    omega (arith, counted, counted', ap length kept, length-append p.kept_lines (line ∷ [])),
  )

  prune_lines_step :
      (line : String) (stripped : List String) (p r : Progress) (blank : Bool)
      → is_empty (strip line) ≡ blank
      → Outcome stripped
          (if blank then p else prune_entry upper flags (strip line) p (match_entry (strip line)))
          r
      → Outcome (if blank then stripped else strip line ∷ stripped) p r
  prune_lines_step line stripped p r true e h = h
  prune_lines_step line stripped p r false e h =
      Outcome-cons (strip line) stripped p
        (prune_entry upper flags (strip line) p (match_entry (strip line))) r
        (is_pruned (strip line)) refl (prune_entry_lem (strip line) p (match_entry (strip line))) h

  prune_lines_lem :
      (lines : List String) (p : Progress)
      → Outcome (stripped_lines lines) p (prune_lines upper flags lines p)
  unfolding prune_lines prune_line
  prune_lines_lem [] p = (sym (append-nil p.kept_lines), omega arith)
  prune_lines_lem (line ∷ lines) p =
      prune_lines_step line (stripped_lines lines) p
        (prune_lines upper flags lines (prune_line upper flags line p)) (is_empty (strip line)) refl
        (prune_lines_lem lines (prune_line upper flags line p))

  -- Where the log can be read and written, the command leaves in the file just the lines that are
  -- neither blank nor asked for, stripped and in order, and its four counts are the number of the
  -- other lines that are not blank.
  pub cmd_prune_lem :
      (text_of : ℕ → String) (text : String)
      → ((cmd_prune upper text_of none flags (holding text)).1
          ≡ holding (file_text (drop_if is_pruned (stripped_lines (cut_lines text)))))
        × (counted (cmd_prune upper text_of none flags (holding text)).0
              + length (drop_if is_pruned (stripped_lines (cut_lines text)))
            ≡ length (stripped_lines (cut_lines text)))
  unfolding cmd_prune
  cmd_prune_lem text_of text =
      let (kept, all) = prune_lines_lem (cut_lines text) start in
      (ap (λ x. holding (file_text x)) kept, omega (arith, all, ap length kept))
