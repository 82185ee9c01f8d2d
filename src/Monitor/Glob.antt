-- ===== src/Monitor/Glob.antt =====
-- `matches_glob` (wks/api/monitor/matches_glob.py) over the `fnmatch.fnmatchcase` of Python.
use mathlib.Core.Option
use wks.Common.{
  ℕ, String, Bool, true, false, not, ◌&&◌, ◌||◌, Option, none, some, List, [], ◌∷◌, ◌==◌, nat_eq,
  leb, if◌then◌else◌,
}
use wks.Common.Text.{codes, is_empty}
use wks.FilePath.{FilePath, name, to_string}

pub data Range : Type 0 where
  range : ℕ → ℕ → Range

pub data Token : Type 0 where
  star any_char : Token
  literal : ℕ → Token
  one_of : Bool → List Range → Token

-- `a-b` in brackets is a range; a dash at the front or at the end stands for itself.
ranges : List ℕ → List Range
ranges (a ∷ d ∷ b ∷ rest) =
    let as_range = range a b ∷ ranges rest in
    let as_char = range a a ∷ ranges (d ∷ b ∷ rest) in if d == b'-' then as_range else as_char
ranges (a ∷ rest) = range a a ∷ ranges rest
ranges [] = []

-- The characters up to the closing bracket, which is not looked for in the first place.
closing : List ℕ → Option (List ℕ × List ℕ)
closing [] = none
closing (c ∷ rest) = elim (closing rest) [
  | none ↦ if c == b']' then some ([], rest) else none
  | some (inside, after) ↦ if c == b']' then some ([], rest) else some (c ∷ inside, after)
]

first_kept : ℕ → Option (List ℕ × List ℕ) → Option (List ℕ × List ℕ)
first_kept c none = none
first_kept c (some (inside, after)) = some (c ∷ inside, after)

-- What stands between the brackets, after the `!`, and the pattern behind them.
bracket : List ℕ → Option (List ℕ × List ℕ)
bracket [] = none
bracket (c ∷ rest) = if c == b']' then first_kept c (closing rest) else closing (c ∷ rest)

-- The class behind an opening bracket, negated by `!`.
char_class : List ℕ → Option (Token × List ℕ)
char_class [] = none
char_class (c ∷ rest) =
    if c == b'!'
    then Option.map (λ (inside, after). (one_of true (ranges inside), after)) (bracket rest)
    else Option.map (λ (inside, after). (one_of false (ranges inside), after)) (bracket (c ∷ rest))

-- `fnmatch.translate`; the fuel is the pattern. A bracket that is not closed stands for itself.
tokens : List ℕ → List ℕ → List Token
tokens [] text = []
tokens (_ ∷ fuel) [] = []
tokens (_ ∷ fuel) (c ∷ rest) =
    let more = tokens fuel rest in
    let with_class : List Token = elim (char_class rest) [
      | none ↦ literal c ∷ more
      | some (token, after) ↦ token ∷ tokens fuel after
    ] in
    if c == b'*'
    then star ∷ more
    else if c == b'?'
    then any_char ∷ more
    else if c == b'['
    then with_class
    else literal c ∷ more

in_ranges : ℕ → List Range → Bool
in_ranges c [] = false
in_ranges c (range a b ∷ more) = (leb a c && leb c b) || in_ranges c more

matches_one : Token → ℕ → Bool
matches_one star c = false
matches_one any_char c = true
matches_one (literal d) c = c == d
matches_one (one_of true rs) c = not (in_ranges c rs)
matches_one (one_of false rs) c = in_ranges c rs

-- The whole text is matched; a star tries the rest of the pattern at every suffix.
matches_tokens : List Token → List ℕ → Bool
matches_tokens [] [] = true
matches_tokens [] (c ∷ text) = false
matches_tokens (star ∷ ts) [] = matches_tokens ts []
matches_tokens (star ∷ ts) (c ∷ text) = elim (matches_tokens ts (c ∷ text)) [
  | true ↦ true
  | false ↦ matches_tokens (star ∷ ts) text
]
matches_tokens (t ∷ ts) [] = false
matches_tokens (t ∷ ts) (c ∷ text) = matches_one t c && matches_tokens ts text

-- `fnmatch.fnmatchcase(text, pattern)`
unfoldable pub fnmatchcase : String → String → Bool
unfolding tokens char_class bracket first_kept closing ranges matches_tokens matches_one in_ranges
    codes nat_eq
fnmatchcase text glob = matches_tokens (tokens (codes glob) (codes glob)) (codes text)

-- An empty pattern is passed over.
unfoldable pub matches_glob : List String → FilePath → Bool
unfolding fnmatchcase to_string
matches_glob [] path = false
matches_glob (glob ∷ globs) path =
    (not (is_empty glob) && (fnmatchcase (to_string path) glob || fnmatchcase (name path) glob))
    || matches_glob globs path
