-- ===== src/Log/Summary.antt =====
-- `summarize_status_log_messages` (wks/api/log/summarize_status_log_messages.py). `text_of` is `str`
-- of a number.
pub mod Laws
use wks.Common.{
  ℕ, ◌-◌, String, ◌<>◌, Option, none, some, List, ◌∷◌, if◌then◌else◌, leb, length, drop,
}

module _ (text_of : ℕ → String) where
  abbrev pub summary_line : String → ℕ → ℕ → String
  summary_line label limit total =
      "Status output truncated: showing "
      <> (text_of limit
          <> (" most recent "
              <> (label
                  <> (" out of "
                      <> (text_of total
                          <> " total. Use 'wksc log status' and the logfile for full history.")))))

  -- `messages[-limit:]` drops all but `limit` messages; `none` is the `ValueError`.
  unfoldable pub summarize_status_messages : List String → String → ℕ → Option (List String)
  summarize_status_messages messages label limit =
      if leb limit 0
      then none
      else if leb (length messages) limit
      then some messages
      else some
          (summary_line label limit (length messages) ∷ drop (length messages - limit) messages)

  unfoldable pub summarize_status_log_messages :
      List String → List String → ℕ → Option (List String × List String)
  summarize_status_log_messages warnings errors limit =
      elim (summarize_status_messages warnings "warnings" limit) [
        | none ↦ none
        | some short_warnings ↦ elim (summarize_status_messages errors "errors" limit) [
          | none ↦ none
          | some short_errors ↦ some (short_warnings, short_errors)
        ]
      ]
