-- ===== src/Move/Filename.antt =====
-- `FILENAME_PATTERN` (wks/services/mv.py) as a machine that reads the characters one by one. Which
-- characters are digits for the pattern's `\d` is a parameter.
pub mod Laws
use wks.Common.{
  ℕ, zero, suc, String, Bool, true, false, ◌&&◌, ◌||◌, List, [], ◌∷◌, ◌==◌, nat_eq, leb,
  if◌then◌else◌,
}
use wks.Common.Text.{codes}

abbrev pub is_digit : ℕ → Bool
is_digit c = leb b'0' c && leb c b'9'

abbrev pub is_upper : ℕ → Bool
is_upper c = leb b'A' c && leb c b'Z'

abbrev pub is_alnum : ℕ → Bool
is_alnum c = is_digit c || is_upper c || (leb b'a' c && leb c b'z')

-- What has been read of the pattern: this many digits of the year, of the month and of the day; the dash
-- or the underscore before a word; a word; the dot; the suffix; and the line break that `$` allows.
pub data PatternState : Type 0 where
  year month day : ℕ → PatternState
  word_start in_word dot suffix line_end rejected : PatternState

abbrev pub accepts : PatternState → Bool
accepts PatternState.in_word = true
accepts PatternState.suffix = true
accepts PatternState.line_end = true
accepts (PatternState.year n) = false
accepts (PatternState.month n) = false
accepts (PatternState.day n) = false
accepts PatternState.word_start = false
accepts PatternState.dot = false
accepts PatternState.rejected = false

-- `is_decimal` is `\d` of a pattern on text: the decimal digits of Unicode.
module _ (is_decimal : ℕ → Bool) where
  unfoldable pub step : PatternState → ℕ → PatternState
  step (PatternState.year n) c =
      if n == 4
      then if c == b'_'
        then PatternState.month 0
        else if c == b'-'
        then PatternState.word_start
        else PatternState.rejected
      else if is_decimal c
      then PatternState.year (suc n)
      else PatternState.rejected
  step (PatternState.month n) c =
      if n == 2
      then if c == b'_'
        then PatternState.day 0
        else if c == b'-'
        then PatternState.word_start
        else PatternState.rejected
      else if is_decimal c
      then PatternState.month (suc n)
      else PatternState.rejected
  step (PatternState.day n) c =
      if n == 2
      then if c == b'-' then PatternState.word_start else PatternState.rejected
      else if is_decimal c
      then PatternState.day (suc n)
      else PatternState.rejected
  step PatternState.word_start c =
      if is_upper c then PatternState.in_word else PatternState.rejected
  step PatternState.in_word c =
      if is_alnum c
      then PatternState.in_word
      else if c == b'_'
      then PatternState.word_start
      else if c == b'.'
      then PatternState.dot
      else if c == 10
      then PatternState.line_end
      else PatternState.rejected
  step PatternState.dot c = if is_alnum c then PatternState.suffix else PatternState.rejected
  step PatternState.suffix c =
      if is_alnum c
      then PatternState.suffix
      else if c == 10
      then PatternState.line_end
      else PatternState.rejected
  step PatternState.line_end c = PatternState.rejected
  step PatternState.rejected c = PatternState.rejected

  unfoldable pub read_codes : PatternState → List ℕ → PatternState
  read_codes q [] = q
  read_codes q (c ∷ cs) = read_codes (step q c) cs

  -- `_is_valid_filename`, the first part of its result
  unfoldable pub is_valid_filename : String → Bool
  is_valid_filename filename = accepts (read_codes (PatternState.year 0) (codes filename))
