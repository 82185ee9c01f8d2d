-- ===== src/Monitor/Explain.antt =====
-- `explain_path` (wks/api/monitor/explain_path.py): is a path monitored, and why.
pub mod Laws
use wks.Common.{
  String, ◌<>◌, Bool, true, false, not, ◌&&◌, ◌||◌, Option, none, some, List, [], ◌∷◌, ◌++◌, map,
  ◌==◌, contains, list_eq, string_eq, if◌then◌else◌, drop_if,
}
use wks.Common.Text.{strip, is_empty}
use wks.FilePath.{
  FilePath, Process, name, parent, parents, to_string, normalize_path, is_relative_to,
}
use wks.Monitor.Glob.{matches_glob}
use wks.Monitor.Roots.{evaluate_roots}

-- `_FilterConfig`
pub record FilterConfig : Type 0 where
  pub include_paths : List String
  pub exclude_paths : List String
  pub include_dirnames : List String
  pub exclude_dirnames : List String
  pub include_globs : List String
  pub exclude_globs : List String

-- `{d.strip() for d in names if d and d.strip()}`
unfoldable pub dirname_set : List String → List String
dirname_set names = map strip (drop_if (λ d. is_empty (strip d)) names)

-- `[g.strip() for g in globs if g]`
unfoldable pub glob_list : List String → List String
glob_list globs = map strip (drop_if (λ g. is_empty g) globs)

-- The loop over `resolved.parents`: the first parent with an excluded name.
unfoldable pub excluded_parent : List String → List FilePath → Option String
excluded_parent exclude_dirnames [] = none
excluded_parent exclude_dirnames (p ∷ rest) =
    if contains exclude_dirnames (name p)
    then some (name p)
    else excluded_parent exclude_dirnames rest

-- The three tests that may set `excluded`, with the line of the trace for the one that did.
unfoldable pub exclusion : List String → List String → FilePath → Option String
exclusion exclude_dirnames exclude_globs resolved =
    elim (excluded_parent exclude_dirnames (parents resolved)) [
      | some dir ↦ some ("Parent dir '" <> (dir <> "' excluded"))
      | none ↦
          if contains exclude_dirnames (name resolved)
          then some ("Directory '" <> (name resolved <> "' excluded"))
          else if matches_glob exclude_globs resolved
          then some "Excluded by glob pattern"
          else none
    ]

-- What may let an excluded path in after all, again with the line of the trace.
unfoldable pub override : List String → List String → FilePath → Option String
override include_dirnames include_globs resolved =
    let parent_name = if parent resolved == resolved then "" else name (parent resolved) in
    if contains include_dirnames parent_name
    then some ("Parent dir '" <> (parent_name <> "' override"))
    else if matches_glob include_globs resolved
    then some "Included by glob override"
    else none

module _ (env : Process) (wks_home : FilePath) where
  unfoldable pub explain_path : FilterConfig → FilePath → Bool × List String
  explain_path cfg resolved =
      if resolved == wks_home || is_relative_to resolved wks_home
      then (
        false,
        ("In WKS home directory " <> (to_string wks_home <> " (automatically ignored)")) ∷ [],
      )
      else (let (root_allowed, root_reason) =
            evaluate_roots resolved (map (normalize_path env) cfg.include_paths)
              (map (normalize_path env) cfg.exclude_paths) in
          if not root_allowed
          then (false, root_reason ∷ [])
          else elim (exclusion (dirname_set cfg.exclude_dirnames) (glob_list cfg.exclude_globs)
              resolved) [
                | none ↦ (true, root_reason ∷ [])
                | some why ↦
                    elim (override (dirname_set cfg.include_dirnames) (glob_list cfg.include_globs)
                      resolved) [
                        | none ↦ (false, root_reason ∷ why ∷ [])
                        | some pass ↦ (true, root_reason ∷ why ∷ pass ∷ [])
                      ]
              ])
