-- ===== src/Uri.antt =====
-- `URI` (wks/api/config/URI.py): the text of an address with a scheme. `hostname` is
-- `socket.gethostname()`, and `unquote` is `urllib.parse.unquote`.
pub mod Laws
use wks.Common.{String, ◌<>◌, Bool, Option, none, some, List, [], ◌∷◌, ◌==◌, nat_eq, if◌then◌else◌}
use Prim.Native.Char.{code}
use mathlib.Core.List.{reverse}
use wks.Common.Text.{starts_with, has_part, drop_chars, join}
use wks.FilePath.{FilePath, Process, normalize_path, to_string, relative_to}

-- The check of `__post_init__`; `none` is the `ValueError`.
unfoldable pub make_uri : String → Option String
make_uri value = if has_part value "://" then some value else none

unfoldable pub is_file : String → Bool
is_file value = starts_with value "file://"

unfoldable pub is_vault : String → Bool
is_vault value = starts_with value "vault:///"

-- `"/" if first_slash == -1 else path_part[first_slash:]`
unfoldable pub from_slash : String → String
unfolding nat_eq
from_slash String.[] = "/"
from_slash (String.◌∷◌ c s) = if code c == b'/' then String.◌∷◌ c s else from_slash s

module _ (env : Process) where
  -- `uri.path`; `none` is the `ValueError` for other schemes.
  unfoldable pub uri_path : (String → String) → String → Option FilePath
  uri_path unquote value =
      if is_file value
      then some (normalize_path env (unquote (from_slash (drop_chars 7 value))))
      else none

  -- `uri.to_path(vault_path)`
  unfoldable pub to_path : (String → String) → Option FilePath → String → Option FilePath
  to_path unquote vault_path value =
      if is_file value
      then uri_path unquote value
      else if is_vault value
      then elim vault_path [
        | none ↦ none
        | some vault ↦ some (normalize_path env (to_string vault <> ("/" <> drop_chars 9 value)))
      ]
      else none

  -- `URI.from_path`
  unfoldable pub from_path : String → String → String
  from_path hostname path = "file://" <> (hostname <> to_string (normalize_path env path))

  -- `str(rel_path)`; the empty relative path is ".".
  abbrev pub relative_text : List String → String
  relative_text [] = "."
  relative_text (part ∷ above) = join "/" (reverse (part ∷ above))

  -- `URI.from_any` of a text
  unfoldable pub from_any : String → Option FilePath → String → String
  from_any hostname vault_path path_or_uri =
      if has_part path_or_uri "://" then path_or_uri else elim vault_path [
        | none ↦ from_path hostname (to_string (normalize_path env path_or_uri))
        | some vault ↦
            elim (relative_to (normalize_path env path_or_uri)
              (normalize_path env (to_string vault))) [
                | none ↦ from_path hostname (to_string (normalize_path env path_or_uri))
                | some below ↦ "vault:///" <> relative_text below
              ]
      ]
