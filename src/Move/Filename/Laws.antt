-- ===== src/Move/Filename/Laws.antt =====
-- The characters of a valid file name (wks/services/mv.py).
use wks.Common.{
  ℕ, String, ◌≡◌, refl, Bool, true, false, ◌||◌, List, [], ◌∷◌, ◌==◌, nat_eq, contains, arith,
  subst, ap, ◌∙◌,
}
use wks.Common.Text.{codes}
use wks.Move.Filename.{PatternState, is_alnum, step, accepts, read_codes, is_valid_filename}

-- Letters and digits, "_", "-", "." and the line break.
abbrev pub is_plain : ℕ → Bool
is_plain c = is_alnum c || c == b'_' || c == b'-' || c == b'.' || c == 10

module _ (is_decimal : ℕ → Bool) where
  step-rejected :
      (q : PatternState) (c : ℕ)
      → is_plain c ≡ false
      → is_decimal c ≡ false
      → step is_decimal q c ≡ PatternState.rejected
  unfolding step
  step-rejected (PatternState.year n) c h d = ground (arith, h, d)
  step-rejected (PatternState.month n) c h d = ground (arith, h, d)
  step-rejected (PatternState.day n) c h d = ground (arith, h, d)
  step-rejected PatternState.word_start c h d = ground (arith, h, d)
  step-rejected PatternState.in_word c h d = ground (arith, h, d)
  step-rejected PatternState.dot c h d = ground (arith, h, d)
  step-rejected PatternState.suffix c h d = ground (arith, h, d)
  step-rejected PatternState.line_end c h d = refl
  step-rejected PatternState.rejected c h d = refl

  read_codes-rejected :
      (cs : List ℕ) → read_codes is_decimal PatternState.rejected cs ≡ PatternState.rejected
  unfolding read_codes step
  read_codes-rejected [] = refl
  read_codes-rejected (c ∷ cs) = read_codes-rejected cs

  read_codes-contains :
      (c : ℕ) (q : PatternState) (cs : List ℕ)
      → is_plain c ≡ false
      → is_decimal c ≡ false
      → contains cs c ≡ true
      → read_codes is_decimal q cs ≡ PatternState.rejected
  unfolding read_codes
  read_codes-contains c q [] h n k = ground (arith, k)
  read_codes-contains c q (d ∷ cs) h n k = elim (nat_eq.dec c d) [
    | yes e ↦
        ap (λ q'. read_codes is_decimal q' cs)
          (step-rejected q d (subst (λ x. is_plain x ≡ false) e h)
            (subst (λ x. is_decimal x ≡ false) e n))
        ∙ read_codes-rejected cs
    | no differ ↦ read_codes-contains c (step is_decimal q d) cs h n (ground (arith, k, differ))
  ]

  -- A name with a character that is no digit of the pattern and other than the ASCII letters and digits,
  -- underscores, dashes, dots and the line break is not valid.
  pub is_valid_filename-codes :
      (filename : String) (c : ℕ)
      → is_plain c ≡ false
      → is_decimal c ≡ false
      → contains (codes filename) c ≡ true
      → is_valid_filename is_decimal filename ≡ false
  unfolding is_valid_filename
  is_valid_filename-codes filename c h n k =
      ap accepts (read_codes-contains c _ (codes filename) h n k)
