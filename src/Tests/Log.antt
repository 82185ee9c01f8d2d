-- ===== src/Tests/Log.antt =====
-- Runs of wks/api/log, and its theorems at concrete input.
use wks.Common.{
  ℕ, ◌+◌, String, ◌≡◌, refl, true, false, none, some, List, [], ◌∷◌, arith, ltb, length, keep_if,
  drop_if,
}
use wks.Common.Text
use wks.Log.Entry.{Level, info, match_entry, stripped_lines, bracketed, level_at}
use wks.Log.Prune.{Flags, cmd_prune, holding, file_text}
use wks.Log.Prune.Laws.{cmd_prune_lem, is_pruned, counted}
use wks.Log.Reading.{Clock, read_log_entries}
use wks.Log.Reading.Laws.{read_log_entries_lem, is_error, is_warning, current}
use wks.Log.Status.Laws.{cmd_status-read_log_entries, file_after_status, file_after_reading}
use wks.Log.Summary.{summarize_status_log_messages}
use wks.Log.Summary.Laws.{summarize_status_log_messages_lem, IsSummary}

match_runs :
    (match_entry "[2024] [api] info: hello" ≡ some ("2024", info))
    × (match_entry "[2024] api info: hello" ≡ none)
unfolding match_entry bracketed level_at Text.lstrip
match_runs = (refl, refl)

abbrev same : String → String
same text = text

abbrev digit : ℕ → String
digit n = "0"

abbrev flags : Flags
flags = record {
  prune_info = true;
  prune_warnings = false;
  prune_errors = false;
  prune_debug = true;
}

abbrev text : String
text = "[1] [api] INFO: a\n\n ERROR b\n[20] [api] WARN: c\n"

cmd_prune_lem_example :
    ((cmd_prune same digit none flags (holding text)).1
      ≡ holding (file_text (drop_if (is_pruned same flags) (stripped_lines (Text.cut_lines text)))))
    × (counted (cmd_prune same digit none flags (holding text)).0
          + length (drop_if (is_pruned same flags) (stripped_lines (Text.cut_lines text)))
        ≡ length (stripped_lines (Text.cut_lines text)))
cmd_prune_lem_example = cmd_prune_lem same flags digit text

-- The time of a stamp is its length.
abbrev clock : Clock
clock = record {
  Time = ℕ;
  fromisoformat = λ stamp. some (Text.text_length stamp);
  isoformat = λ t. "0";
  before = λ a b. some (ltb a b);
}

abbrev cutoffs : Level → ℕ
cutoffs level = 2

read_log_entries_lem_example :
    read_log_entries clock same 5 cutoffs none (holding text)
    ≡ some (
      keep_if
          (is_warning clock same ltb (λ a b. refl) 5 cutoffs)
          (current clock same ltb (λ a b. refl) 5 cutoffs text),
      keep_if
          (is_error clock same ltb (λ a b. refl) 5 cutoffs)
          (current clock same ltb (λ a b. refl) 5 cutoffs text),
      holding (file_text (current clock same ltb (λ a b. refl) 5 cutoffs text)),
    )
read_log_entries_lem_example = read_log_entries_lem clock same ltb (λ a b. refl) 5 cutoffs text

cmd_status-read_log_entries_example :
    file_after_status clock same 5 cutoffs (holding text)
    ≡ file_after_reading clock same 5 cutoffs (holding text)
cmd_status-read_log_entries_example =
    cmd_status-read_log_entries clock same 5 cutoffs (holding text)

summarize_status_log_messages_lem_example :
    (short_warnings short_errors : List String) × (summarize_status_log_messages digit
        ("a" ∷ "b" ∷ [])
        []
        1
      ≡ some (short_warnings, short_errors))
    × IsSummary digit "warnings" 1 ("a" ∷ "b" ∷ []) short_warnings
    × IsSummary digit "errors" 1 [] short_errors
summarize_status_log_messages_lem_example =
    summarize_status_log_messages_lem digit ("a" ∷ "b" ∷ []) [] 1 (omega arith)
