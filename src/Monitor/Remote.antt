-- ===== src/Monitor/Remote.antt =====
-- `resolve_remote_uri` (wks/api/monitor/resolve_remote_uri.py): the remote address of a local file,
-- by the first mapping that serves it.
pub mod Laws
use Prim.Native.Char.{code}
use wks.Common.{String, ◌<>◌, ◌&&◌, Option, none, some, List, [], ◌∷◌, ◌==◌, nat_eq, if◌then◌else◌}
use wks.Common.Text.{is_empty}
use wks.FilePath.{FilePath, Process, normalize_path, relative_to}
use wks.Uri.{make_uri, uri_path, relative_text}

-- `RemoteMapping`
pub record RemoteMapping : Type 0 where
  pub local_path : String
  pub remote_uri : String

-- `text.rstrip("/")`
unfoldable pub without_slashes : String → String
unfolding nat_eq
without_slashes String.[] = String.[]
without_slashes (String.◌∷◌ c s) =
    let rest = without_slashes s in
    if is_empty rest && code c == b'/' then String.[] else String.◌∷◌ c rest

-- `text.replace("\\", "/")`
unfoldable pub with_slashes : String → String
unfolding nat_eq
with_slashes String.[] = String.[]
with_slashes (String.◌∷◌ c s) =
    let rest = with_slashes s in if code c == 92 then "/" <> rest else String.◌∷◌ c rest

module _ (env : Process) where
  -- `f"{base}/{rel_str}"`
  abbrev pub remote_text : String → List String → String
  remote_text remote_uri below =
      without_slashes remote_uri <> ("/" <> with_slashes (relative_text env below))

  -- The body of the loop; `none` is `continue`, after the `ValueError` of `URI` too.
  unfoldable pub serve : FilePath → RemoteMapping → Option String
  serve path mapping = elim (relative_to path (normalize_path env mapping.local_path)) [
    | none ↦ none
    | some below ↦ make_uri (remote_text mapping.remote_uri below)
  ]

  unfoldable pub first_served : FilePath → List RemoteMapping → Option String
  first_served path [] = none
  first_served path (mapping ∷ mappings) = elim (serve path mapping) [
    | none ↦ first_served path mappings
    | some remote ↦ some remote
  ]

  -- An address that is no file has no remote address.
  unfoldable pub resolve_remote_uri :
      (String → String) → String → List RemoteMapping → Option String
  resolve_remote_uri unquote uri mappings = elim (uri_path env unquote uri) [
    | none ↦ none
    | some resolved_path ↦ first_served resolved_path mappings
  ]
