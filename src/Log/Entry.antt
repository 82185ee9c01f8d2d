-- ===== src/Log/Entry.antt =====
-- `LOG_PATTERN` (wks/api/log/LOG_PATTERN.py) as a parser. The pattern is deterministic, so nothing
-- is tried twice. The two letters outside ASCII that `re.IGNORECASE` takes for an "i" are left out.
use Prim.Native.Char.{code}
use wks.Common.{
  ℕ, ◌-◌, String, Bool, true, false, ◌&&◌, Option, none, some, List, ◌==◌, nat_eq, leb,
  if◌then◌else◌, drop_if, map,
}
use wks.Common.Text.{lstrip, strip, is_empty}

pub data Level : Type 0 where
  debug info warn error : Level

-- The text before the first "]", and the one behind it.
unfoldable pub until_bracket : String → Option (String × String)
unfolding nat_eq
until_bracket String.[] = none
until_bracket (String.◌∷◌ c s) =
    let more = until_bracket s in
    if code c == b']'
    then some ("", s)
    else elim more [ none ↦ none | some (inner, rest) ↦ some (String.◌∷◌ c inner, rest) ]

-- `\[([^\]]+)\]`
unfoldable pub bracketed : String → Option (String × String)
unfolding until_bracket nat_eq
bracketed String.[] = none
bracketed (String.◌∷◌ c s) =
    if code c == b'['
    then elim (until_bracket s) [
      | none ↦ none
      | some (inner, rest) ↦ if is_empty inner then none else some (inner, rest)
    ]
    else none

abbrev upper_code : ℕ → ℕ
upper_code c = if leb 97 c && leb c 122 then c - 32 else c

-- Does the text begin with this word of capitals, whatever the case?
unfoldable pub begins : String → String → Bool
unfolding nat_eq
begins s String.[] = true
begins String.[] (String.◌∷◌ d word) = false
begins (String.◌∷◌ c s) (String.◌∷◌ d word) = upper_code (code c) == code d && begins s word

-- `(DEBUG|INFO|WARN|ERROR):`
unfoldable pub level_at : String → Option Level
unfolding begins
level_at s =
    if begins s "DEBUG:"
    then some debug
    else if begins s "INFO:"
    then some info
    else if begins s "WARN:"
    then some warn
    else if begins s "ERROR:"
    then some error
    else none

-- The groups 1 and 3 of a match: the time stamp and the level.
unfoldable pub match_entry : String → Option (String × Level)
unfolding bracketed level_at
match_entry line = elim (bracketed line) [
  | none ↦ none
  | some (timestamp, rest) ↦ elim (bracketed (lstrip rest)) [
    | none ↦ none
    | some (source, rest') ↦ elim (level_at (lstrip rest')) [
      | none ↦ none
      | some level ↦ some (timestamp, level)
    ]
  ]
]

-- What both readers of the file begin with: `line.strip()` and `if not stripped: continue`.
abbrev pub stripped_lines : List String → List String
stripped_lines lines = drop_if is_empty (map strip lines)
