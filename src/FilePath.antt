-- ===== src/FilePath.antt =====
-- pathlib's pure paths as the program uses them, and `normalize_path`
-- (wks/api/config/normalize_path.py). An absolute path is the list of its components, the last
-- component first, so that `parent` is the tail and the root is the empty list.
pub mod Laws
use wks.Common.{
  ℕ, String, ◌<>◌, Bool, true, false, ◌&&◌, Option, none, some, List, [], ◌∷◌, ◌++◌, map, ◌==◌,
  string_eq, nat_eq, list_eq, if◌then◌else◌, drop_if, is_some, not,
}
use Prim.Native.Char.{code}
use mathlib.Core.List.{reverse}
use wks.Common.Text.{split_on, starts_with, drop_chars, join, is_empty, has_char}

abbrev pub FilePath : Type 0
FilePath = List String

-- `path.name`
abbrev pub name : FilePath → String
name [] = ""
name (part ∷ above) = part

-- `path.parent`; the root is its own parent
abbrev pub parent : FilePath → FilePath
parent [] = []
parent (part ∷ above) = above

-- `path.parents`
abbrev pub parents : FilePath → List FilePath
parents [] = []
parents (part ∷ above) = above ∷ parents above

-- `str(path)`, and `path.as_posix()`
unfoldable pub to_string : FilePath → String
unfolding join
to_string path = "/" <> join "/" (reverse path)

-- `path.relative_to(base)`: the components below the base, the last first; `none` is the
-- `ValueError`.
unfoldable pub relative_to : FilePath → FilePath → Option (List String)
relative_to [] base = if [] == base then some [] else none
relative_to (part ∷ above) base =
    if (part ∷ above) == base
    then some []
    else elim (relative_to above base) [ none ↦ none | some below ↦ some (part ∷ below) ]

-- `path.is_relative_to(base)`
abbrev pub is_relative_to : FilePath → FilePath → Bool
is_relative_to path base = is_some (relative_to path base)

-- What `expanduser` and `absolute` read from the process: the home directories and the working
-- directory. A user without a home directory, where `expanduser` raises, is outside the model.
pub record Process : Type 0 where
  pub home : FilePath
  pub cwd : FilePath
  pub user_home : String → FilePath

-- The components of a relative path, the last first; empty and "." components are dropped.
components : String → List String
components text =
    reverse (drop_if (λ part. is_empty part) (drop_if (λ part. part == ".") (split_on 47 text)))

-- The first component decides: "~" and "~user" are expanded.
expand : Process → List String → FilePath
expand env [] = env.cwd
expand env (part ∷ rest) =
    if part == "~"
    then reverse rest ++ env.home
    else if starts_with part "~"
    then reverse rest ++ env.user_home (drop_chars 1 part)
    else reverse (part ∷ rest) ++ env.cwd

-- `Path(text).expanduser().absolute()`
unfoldable pub normalize_path : Process → String → FilePath
unfolding components expand split_on starts_with drop_chars string_eq
normalize_path env text =
    if starts_with text "/" then components text else expand env (reverse (components text))

-- The text before and from the last dot, if there is one.
split_dot : String → Option (String × String)
split_dot String.[] = none
split_dot (String.◌∷◌ c s) = elim (split_dot s) [
  | some (before, from) ↦ some (String.◌∷◌ c before, from)
  | none ↦ if code c == b'.' then some (String.[], String.◌∷◌ c s) else none
]

-- A dot at the front or at the end of a name begins no suffix.
has_suffix : String × String → Bool
has_suffix (before, from) = not (is_empty before) && not (is_empty (drop_chars 1 from))

-- `path.suffix`
unfoldable pub suffix : String → String
unfolding split_dot has_suffix drop_chars nat_eq
suffix file_name = elim (split_dot file_name) [
  | none ↦ ""
  | some parts ↦ if has_suffix parts then parts.1 else ""
]

-- `path.stem`
unfoldable pub stem : String → String
unfolding split_dot has_suffix drop_chars nat_eq
stem file_name = elim (split_dot file_name) [
  | none ↦ file_name
  | some parts ↦ if has_suffix parts then parts.0 else file_name
]
