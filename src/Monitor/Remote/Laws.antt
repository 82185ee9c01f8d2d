-- ===== src/Monitor/Remote/Laws.antt =====
-- Which mapping serves a file (wks/api/monitor/resolve_remote_uri.py).
use wks.Common.{
  String, ◌≡◌, refl, inl, inr, true, Option, none, some, List, [], ◌∷◌, ◌++◌, arith, ap, All,
  Bool-cases, Option-cases, ◌⊎◌, false, subst, sym,
}
use wks.Common.Text.{has_part}
use wks.FilePath.{FilePath, Process, normalize_path, relative_to}
use wks.FilePath.Laws.{relative_to-append, relative_to-some}
use wks.Uri.{make_uri, uri_path}
use wks.Monitor.Remote.{RemoteMapping, remote_text, serve, first_served, resolve_remote_uri}

module _ (env : Process) (path : FilePath) where
  -- The file stands below the local directory of the mapping, at these components, and the address
  -- made of them has a scheme.
  pub record Serves (mapping : RemoteMapping) (remote : String) : Type 0 where
    pub below : List String
    pub inside : path ≡ below ++ normalize_path env mapping.local_path
    pub text : remote ≡ remote_text env mapping.remote_uri below
    pub valid : has_part remote "://" ≡ true

  -- The path is that of no file below the local directory of the mapping, or the address that is made of
  -- the components below it has no scheme.
  abbrev pub Declines : RemoteMapping → Type 0
  Declines mapping =
      (¬ ((below : List String) × (path ≡ below ++ normalize_path env mapping.local_path)))
      ⊎ ((below : List String) × (path ≡ below ++ normalize_path env mapping.local_path)
          × (has_part (remote_text env mapping.remote_uri below) "://" ≡ false))

  make_uri-none : (value : String) → make_uri value ≡ none → has_part value "://" ≡ false
  unfolding make_uri
  make_uri-none value e = ground arith

  serve-Declines : (mapping : RemoteMapping) → serve env path mapping ≡ none → Declines mapping
  unfolding serve
  serve-Declines mapping e =
      elim (Option-cases (relative_to path (normalize_path env mapping.local_path))) [
        | inl n ↦
            inl (λ (below, h).
              relative_to-some below path (normalize_path env mapping.local_path) h n)
        | inr (below, n) ↦ inr (
          below,
          relative_to-append path (normalize_path env mapping.local_path) below n,
          make_uri-none (remote_text env mapping.remote_uri below) (ground arith),
        )
      ]

  make_uri-some :
      (value remote : String)
      → make_uri value ≡ some remote
      → (remote ≡ value) × (has_part remote "://" ≡ true)
  unfolding make_uri
  make_uri-some value remote e = elim (Bool-cases (has_part value "://")) [
    | inl h ↦ (ground arith, ground arith)
    | inr h ↦ absurd (ground arith)
  ]

  serve-Serves :
      (mapping : RemoteMapping) (remote : String) (found : Option (List String))
      → relative_to path (normalize_path env mapping.local_path) ≡ found
      → (elim found [
        | none ↦ none
        | some below ↦ make_uri (remote_text env mapping.remote_uri below)
      ])
        ≡ some remote
      → Serves mapping remote
  serve-Serves mapping remote none e h = absurd (ground arith)
  serve-Serves mapping remote (some below) e h =
      let (text, valid) = make_uri-some (remote_text env mapping.remote_uri below) remote h in
      record {
        below = below;
        inside = relative_to-append path (normalize_path env mapping.local_path) below e;
        text = text;
        valid = valid;
      }

  -- What the loop returns.
  abbrev pub RemoteOutcome : List RemoteMapping → Option String → Type 0
  RemoteOutcome mappings none = All Declines mappings
  RemoteOutcome mappings (some remote) =
      (before after : List RemoteMapping) × (mapping : RemoteMapping) × (mappings
        ≡ before ++ mapping ∷ after)
      × All Declines before
      × Serves mapping remote

  RemoteOutcome-cons :
      (mapping : RemoteMapping) (mappings : List RemoteMapping) (result : Option String)
      → Declines mapping
      → RemoteOutcome mappings result
      → RemoteOutcome (mapping ∷ mappings) result
  RemoteOutcome-cons mapping mappings none e all = (e, all)
  RemoteOutcome-cons mapping mappings (some remote) e (before, after, first, split, all, serves) =
      (mapping ∷ before, after, first, ap (◌∷◌ mapping) split, (e, all), serves)

  first_served-cons :
      (mapping : RemoteMapping) (mappings : List RemoteMapping) (served : Option String)
      → serve env path mapping ≡ served
      → RemoteOutcome mappings (first_served env path mappings)
      → RemoteOutcome
          (mapping ∷ mappings)
          (elim served [ none ↦ first_served env path mappings | some remote ↦ some remote ])
  first_served-cons mapping mappings none e h =
      RemoteOutcome-cons mapping mappings (first_served env path mappings)
        (serve-Declines mapping e) h
  first_served-cons mapping mappings (some remote) e h = (
    [],
    mappings,
    mapping,
    refl,
    tt,
    serve-Serves mapping remote (relative_to path (normalize_path env mapping.local_path)) refl
        (unfold serve in e),
  )

  first_served-RemoteOutcome :
      (mappings : List RemoteMapping) → RemoteOutcome mappings (first_served env path mappings)
  unfolding first_served
  first_served-RemoteOutcome [] = tt
  first_served-RemoteOutcome (mapping ∷ mappings) =
      first_served-cons mapping mappings (serve env path mapping) refl
        (first_served-RemoteOutcome mappings)

  -- The remote address of a file is the one of the first mapping that serves it: the file stands below
  -- the directory of that mapping and the address made of the components between has a scheme. For
  -- every mapping before it, and for every mapping if there is no remote address, the file does not
  -- stand below the directory or the address made of the components between has no scheme.
  pub resolve_remote_uri_lem :
      (unquote : String → String) (uri : String) (mappings : List RemoteMapping)
      → uri_path env unquote uri ≡ some path
      → RemoteOutcome mappings (resolve_remote_uri env unquote uri mappings)
  unfolding resolve_remote_uri
  resolve_remote_uri_lem unquote uri mappings e =
      subst
        (λ found.
          RemoteOutcome mappings
            (elim found [ none ↦ none | some resolved ↦ first_served env resolved mappings ]))
        (sym e) (first_served-RemoteOutcome mappings)
