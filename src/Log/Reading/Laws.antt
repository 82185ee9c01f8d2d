-- ===== src/Log/Reading/Laws.antt =====
-- The log file after it was read (wks/api/log/read_log_entries.py).
use wks.Common.{
  String, ◌≡◌, refl, Bool, true, false, not, ◌&&◌, Option, none, some, List, [], ◌∷◌, ◌++◌, arith,
  if◌then◌else◌, keep_if, drop_if, append_assoc, append-nil, sym, ap,
}
use wks.Common.Text.{strip, is_empty, has_part, cut_lines}
use wks.Log.Entry.{Level, debug, info, warn, error, match_entry, stripped_lines}
use wks.Log.Prune.{holding, file_text}
use wks.Log.Reading.{
  Clock, Reading, nothing_read, entry_time, unless_expired, read_entry, read_line, read_lines,
  read_log_entries, report_level, keep,
}

-- A line more, where a test says so.
abbrev push_if : Bool → String → List String → List String
push_if b line xs = xs ++ (if b then line ∷ [] else [])

push_if-append :
    (b : Bool) (line : String) (xs ys : List String)
    → push_if b line xs ++ ys ≡ xs ++ (if b then line ∷ ys else ys)
push_if-append true line xs ys = append_assoc xs (line ∷ []) ys
push_if-append false line xs ys = ap (λ x. x ++ ys) (append-nil xs)

module _ (T : Clock) (upper : String → String) (earlier : T.Time → T.Time → Bool)
    (comparable_times : (a b : T.Time) → T.before a b ≡ some (earlier a b)) (now : T.Time)
    (cutoffs : Level → T.Time) where
  abbrev is_expired_entry : Option (String × Level) → Bool
  is_expired_entry none = false
  is_expired_entry (some (timestamp, level)) =
      earlier (entry_time T upper now timestamp) (cutoffs level)

  -- A line with a level expires when its time stamp is before the cutoff of the level.
  abbrev pub is_expired : String → Bool
  is_expired line = is_expired_entry (match_entry line)

  abbrev is_error_entry : String → Option (String × Level) → Bool
  is_error_entry line none = has_part (upper line) "ERROR"
  is_error_entry line (some (timestamp, error)) = true
  is_error_entry line (some (timestamp, _)) = false

  abbrev pub is_error : String → Bool
  is_error line = is_error_entry line (match_entry line)

  abbrev is_warning_entry : String → Option (String × Level) → Bool
  is_warning_entry line none = has_part (upper line) "WARN" && not (has_part (upper line) "ERROR")
  is_warning_entry line (some (timestamp, warn)) = true
  is_warning_entry line (some (timestamp, _)) = false

  abbrev pub is_warning : String → Bool
  is_warning line = is_warning_entry line (match_entry line)

  abbrev Grown : Bool → Bool → Bool → String → Reading → Reading → Type 0
  Grown kept error_line warning_line line r q =
      (q.kept_lines ≡ push_if kept line r.kept_lines)
      × (q.errors ≡ push_if (kept && error_line) line r.errors)
      × (q.warnings ≡ push_if (kept && warning_line) line r.warnings)

  report_level_lem :
      (timestamp : String) (level : Level) (line : String) (r : Reading)
      → Grown true
          (is_error_entry line (some (timestamp, level)))
          (is_warning_entry line (some (timestamp, level)))
          line
          r
          (report_level level line (keep line r))
  report_level_lem timestamp debug line r =
      (refl, sym (append-nil r.errors), sym (append-nil r.warnings))
  report_level_lem timestamp info line r =
      (refl, sym (append-nil r.errors), sym (append-nil r.warnings))
  report_level_lem timestamp warn line r = (refl, sym (append-nil r.errors), refl)
  report_level_lem timestamp error line r = (refl, refl, sym (append-nil r.warnings))

  unless_expired_lem :
      (timestamp : String) (level : Level) (line : String) (r : Reading) (expired : Bool)
      → (q : Reading) × (unless_expired T upper
            (some expired)
            r
            (report_level level line (keep line r))
          ≡ some q)
        × Grown
            (not expired)
            (is_error_entry line (some (timestamp, level)))
            (is_warning_entry line (some (timestamp, level)))
            line
            r
            q
  unless_expired_lem timestamp level line r true = (
    r,
    refl,
    (sym (append-nil r.kept_lines), sym (append-nil r.errors), sym (append-nil r.warnings)),
  )
  unless_expired_lem timestamp level line r false =
      (report_level level line (keep line r), refl, report_level_lem timestamp level line r)

  read_entry_lem :
      (line : String) (r : Reading) (entry : Option (String × Level))
      → (q : Reading) × (read_entry T upper now cutoffs line r entry ≡ some q)
        × Grown
            (not (is_expired_entry entry))
            (is_error_entry line entry)
            (is_warning_entry line entry)
            line
            r
            q
  unfolding read_entry
  read_entry_lem line r none = (_, refl, ground (arith, append-nil r.errors, append-nil r.warnings))
  read_entry_lem line r (some (timestamp, level)) =
      rw (comparable_times (entry_time T upper now timestamp) (cutoffs level)) (
        unless_expired_lem timestamp level line r
          (earlier (entry_time T upper now timestamp) (cutoffs level)))

  -- What reading the stripped lines adds.
  abbrev Added : List String → Reading → Reading → Type 0
  Added stripped r q =
      (q.kept_lines ≡ r.kept_lines ++ drop_if is_expired stripped)
      × (q.errors ≡ r.errors ++ keep_if is_error (drop_if is_expired stripped))
      × (q.warnings ≡ r.warnings ++ keep_if is_warning (drop_if is_expired stripped))

  Added-cons :
      (line : String) (stripped : List String) (r q s : Reading) (gone is_err is_warn : Bool)
      → is_expired line ≡ gone
      → is_error line ≡ is_err
      → is_warning line ≡ is_warn
      → Grown (not gone) is_err is_warn line r q
      → Added stripped q s
      → Added (line ∷ stripped) r s
  Added-cons line stripped r q s true is_err is_warn eg ee ew (k, e, w) (k', e', w') = (
    rw (eg, k', k) (push_if-append false line r.kept_lines (drop_if is_expired stripped)),
    rw (eg, e', e)
        (push_if-append false line r.errors (keep_if is_error (drop_if is_expired stripped))),
    rw (eg, w', w)
        (push_if-append false line r.warnings (keep_if is_warning (drop_if is_expired stripped))),
  )
  Added-cons line stripped r q s false is_err is_warn eg ee ew (k, e, w) (k', e', w') = (
    rw (eg, k', k) (push_if-append true line r.kept_lines (drop_if is_expired stripped)),
    rw (eg, ee, e', e)
        (push_if-append is_err line r.errors (keep_if is_error (drop_if is_expired stripped))),
    rw (eg, ew, w', w)
        (push_if-append is_warn line r.warnings (keep_if is_warning (drop_if is_expired stripped))),
  )

  read_lines_step :
      (line : String) (stripped : List String) (r : Reading) (blank : Bool)
      → is_empty (strip line) ≡ blank
      → (q : Reading) × ((if blank
            then some r
            else read_entry T upper now cutoffs (strip line) r (match_entry (strip line)))
          ≡ some q)
        × ((s : Reading)
            → Added stripped q s
            → Added (if blank then stripped else strip line ∷ stripped) r s)
  read_lines_step line stripped r true e = (r, refl, λ s h. h)
  read_lines_step line stripped r false e =
      let (q, found, grown) = read_entry_lem (strip line) r (match_entry (strip line)) in
      (
        q,
        found,
        λ s h.
            Added-cons (strip line) stripped r q s (is_expired (strip line)) (is_error (strip line))
              (is_warning (strip line)) refl refl refl grown h,
      )

  read_line_lem :
      (line : String) (stripped : List String) (r : Reading)
      → (q : Reading) × (read_line T upper now cutoffs line r ≡ some q)
        × ((s : Reading)
            → Added stripped q s
            → Added (if is_empty (strip line) then stripped else strip line ∷ stripped) r s)
  unfolding read_line
  read_line_lem line stripped r = read_lines_step line stripped r (is_empty (strip line)) refl

  read_lines-cons :
      (line : String) (lines : List String) (r q s : Reading)
      → read_line T upper now cutoffs line r ≡ some q
      → read_lines T upper now cutoffs lines q ≡ some s
      → read_lines T upper now cutoffs (line ∷ lines) r ≡ some s
  unfolding read_lines
  read_lines-cons line lines r q s e e' = ground arith

  read_lines_lem :
      (lines : List String) (r : Reading)
      → (q : Reading) × (read_lines T upper now cutoffs lines r ≡ some q)
        × Added (stripped_lines lines) r q
  unfolding read_lines
  read_lines_lem [] r = (
    r,
    refl,
    (sym (append-nil r.kept_lines), sym (append-nil r.errors), sym (append-nil r.warnings)),
  )
  read_lines_lem (line ∷ lines) r =
      let (q, found, onward) = read_line_lem line (stripped_lines lines) r in
      let (s, found', added) = read_lines_lem lines q in
      (s, read_lines-cons line lines r q s found found', onward s added)

  read_log_entries-some :
      (text : String) (q : Reading)
      → read_lines T upper now cutoffs (cut_lines text) nothing_read ≡ some q
      → read_log_entries T upper now cutoffs none (holding text)
        ≡ some (q.warnings, q.errors, holding (file_text q.kept_lines))
  unfolding read_log_entries
  read_log_entries-some text q e = ground arith

  -- The entries of a text that have not expired.
  abbrev pub current : String → List String
  current text = drop_if is_expired (stripped_lines (cut_lines text))

  -- Where times can always be compared and the file can be read and written, the file keeps just the
  -- lines that are neither blank nor expired; the errors reported are the kept lines with the level
  -- ERROR or, without a level, with that word; the warnings are the others with WARN.
  pub read_log_entries_lem :
      (text : String)
      → read_log_entries T upper now cutoffs none (holding text)
        ≡ some (
          keep_if is_warning (current text),
          keep_if is_error (current text),
          holding (file_text (current text)),
        )
  read_log_entries_lem text =
      let (q, found, (kept, errors, warnings)) = read_lines_lem (cut_lines text) nothing_read in
      rw (read_log_entries-some text q found) (rw (kept, errors, warnings) refl)
