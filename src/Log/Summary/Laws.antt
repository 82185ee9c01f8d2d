-- ===== src/Log/Summary/Laws.antt =====
-- How much the summary shows (wks/api/log/summarize_status_log_messages.py).
use wks.Common.{
  ℕ, ◌-◌, ◌≤◌, ◌<◌, String, ◌≡◌, refl, ◌⊎◌, inl, inr, some, List, ◌∷◌, ◌++◌, arith, leb, length,
  length-drop, take, drop, take-append-drop, sym, Bool-cases,
}
use wks.Log.Summary.{summarize_status_messages, summarize_status_log_messages, summary_line}

module _ (text_of : ℕ → String) where
  -- A short list is shown as it is; of a longer one the last `limit` messages are shown, behind a
  -- line with the numbers.
  abbrev pub IsSummary : String → ℕ → List String → List String → Type 0
  IsSummary label limit messages shown =
      ((length messages ≤ limit) × (shown ≡ messages))
      ⊎ ((older recent : List String) × (messages ≡ older ++ recent)
          × (length recent ≡ limit)
          × (shown ≡ summary_line text_of label limit (length messages) ∷ recent))

  summarize_status_messages_lem :
      (messages : List String) (label : String) (limit : ℕ)
      → 0 < limit
      → (shown : List String) × (summarize_status_messages text_of messages label limit
          ≡ some shown)
        × IsSummary label limit messages shown
  unfolding summarize_status_messages
  summarize_status_messages_lem messages label limit h =
      elim (Bool-cases (leb (length messages) limit)) [
        | inl e ↦ (messages, ground arith, inl (ground arith, refl))
        | inr e ↦ (
          summary_line text_of label limit (length messages)
              ∷ drop (length messages - limit) messages,
          ground arith,
          inr (
            take (length messages - limit) messages,
            drop (length messages - limit) messages,
            sym (take-append-drop (length messages - limit) messages),
            ground (arith, length-drop (length messages - limit) messages),
            refl,
          ),
        )
      ]

  both_summarised :
      (warnings errors w e : List String) (limit : ℕ)
      → summarize_status_messages text_of warnings "warnings" limit ≡ some w
      → summarize_status_messages text_of errors "errors" limit ≡ some e
      → summarize_status_log_messages text_of warnings errors limit ≡ some (w, e)
  unfolding summarize_status_log_messages
  both_summarised warnings errors w e limit ew ee = ground arith

  -- With a positive limit both lists are summarised: nothing is raised, a list within the limit is
  -- unchanged, and of a longer one exactly the last messages stay, as many as the limit says,
  -- behind one line that tells so.
  pub summarize_status_log_messages_lem :
      (warnings errors : List String) (limit : ℕ)
      → 0 < limit
      → (short_warnings short_errors : List String) × (summarize_status_log_messages text_of
            warnings errors limit
          ≡ some (short_warnings, short_errors))
        × IsSummary "warnings" limit warnings short_warnings
        × IsSummary "errors" limit errors short_errors
  summarize_status_log_messages_lem warnings errors limit h =
      let (w, ew, sw) = summarize_status_messages_lem warnings "warnings" limit h in
      let (e, ee, se) = summarize_status_messages_lem errors "errors" limit h in
      (w, e, both_summarised warnings errors w e limit ew ee, sw, se)
