-- ===== src/Monitor/Explain/Laws.antt =====
-- `explain_path` (wks/api/monitor/explain_path.py) against a description of what is monitored.
use wks.Common.{
  String, true, false, ◌≡◌, ◌≢◌, refl, ◌↔◌, ◌⊎◌, inl, inr, none, List, [], ◌∷◌, map, arith, ◌==◌,
  ◌||◌, ◌&&◌, not, if◌then◌else◌, contains, list_eq, string_eq, Bool-cases, Option-cases, is_some,
  Any, sym, ap, ◌∙◌, drop_if, length,
}
use mathlib.Core.Bool.{false≢true}
use wks.Common.Text.{strip, is_empty}
use wks.FilePath.{FilePath, Process, name, parent, parents, normalize_path, is_relative_to}
use wks.Monitor.Glob.{matches_glob}
use wks.Monitor.Roots.{evaluate_roots, evaluate_roots_iff, InsideRoots}
use wks.Monitor.Explain.{
  FilterConfig, explain_path, exclusion, override, excluded_parent, dirname_set, glob_list,
}

module _ (env : Process) (cfg : FilterConfig) (path : FilePath) where
  -- A component of the path has an excluded name, or an exclude glob matches the path.
  abbrev pub Excluded : Type 0
  Excluded =
      Any (λ part. contains (dirname_set cfg.exclude_dirnames) part ≡ true) path
      ⊎ (matches_glob (glob_list cfg.exclude_globs) path ≡ true)

  -- The parent directory has an included name, or an include glob matches the path.
  abbrev pub Overridden : Type 0
  Overridden =
      (contains (dirname_set cfg.include_dirnames) (name (parent path)) ≡ true)
      ⊎ (matches_glob (glob_list cfg.include_globs) path ≡ true)

  -- What is monitored: a path outside the WKS home, inside the roots, and not excluded unless
  -- overridden.
  abbrev pub IsMonitored : FilePath → Type 0
  IsMonitored wks_home =
      (path ≢ wks_home)
      × (is_relative_to path wks_home ≡ false)
      × InsideRoots (map (normalize_path env) cfg.include_paths)
          (map (normalize_path env) cfg.exclude_paths) path
      × (Excluded → Overridden)

-- The sets hold no empty name.
ne_of_nonempty : (text : String) → is_empty text ≡ false → "" ≢ text
ne_of_nonempty text h e = false≢true (sym h ∙ ap is_empty (sym e))

stripped_nonempty :
    (names : List String)
    → contains (map strip (drop_if (λ d. is_empty (strip d)) names)) "" ≡ false
stripped_nonempty [] = refl
stripped_nonempty (d ∷ names) = elim (Bool-cases (is_empty (strip d))) [
  | inl e ↦ rw e (stripped_nonempty names)
  | inr e ↦ rw e (ground (arith, ne_of_nonempty (strip d) e, stripped_nonempty names))
]

dirname_set-nonempty : (names : List String) → contains (dirname_set names) "" ≡ false
unfolding dirname_set
dirname_set-nonempty names = stripped_nonempty names

parent-ne : (part : String) (above : FilePath) → above ≢ part ∷ above
parent-ne part above e = absurd (omega (arith, ap length e))

excluded_parent-nil : (set : List String) → excluded_parent set [] ≡ none
unfolding excluded_parent
excluded_parent-nil set = refl

module _ (set : List String) (none_empty : contains set "" ≡ false) where
  excluded_parent→Any :
      (above : FilePath)
      → is_some (excluded_parent set (above ∷ parents above)) ≡ true
      → Any (λ part. contains set part ≡ true) above
  unfolding excluded_parent
  excluded_parent→Any [] h = ground arith
  excluded_parent→Any (q ∷ up) h = elim (Bool-cases (contains set q)) [
    | inl e ↦ inl e
    | inr e ↦ inr (excluded_parent→Any up (rw e at h))
  ]

  Any→excluded_parent :
      (above : FilePath)
      → Any (λ part. contains set part ≡ true) above
      → is_some (excluded_parent set (above ∷ parents above)) ≡ true
  unfolding excluded_parent
  Any→excluded_parent [] h = absurd h
  Any→excluded_parent (q ∷ up) (inl e) = rw e
  Any→excluded_parent (q ∷ up) (inr h) = elim (Bool-cases (contains set q)) [
    | inl e ↦ rw e
    | inr e ↦ rw e (Any→excluded_parent up h)
  ]

module _ (env : Process) (wks_home : FilePath) (cfg : FilterConfig) where
  exclusion→Excluded :
      (path : FilePath)
      → is_some (exclusion (dirname_set cfg.exclude_dirnames) (glob_list cfg.exclude_globs) path)
        ≡ true
      → Excluded env cfg path
  unfolding exclusion
  exclusion→Excluded [] h = inr (
      ground (
        arith,
        dirname_set-nonempty cfg.exclude_dirnames,
        excluded_parent-nil (dirname_set cfg.exclude_dirnames),
      ))
  exclusion→Excluded (part ∷ above) h =
      elim (Option-cases (excluded_parent set (above ∷ parents above))) [
        | inr (d, e) ↦ inl (inr (excluded_parent→Any set fresh above (rw e)))
        | inl e ↦ elim (Bool-cases (contains set part)) [
          | inl i ↦ inl (inl i)
          | inr i ↦ inr (ground arith)
        ]
      ]
    where
      set : List String
      set = dirname_set cfg.exclude_dirnames

      fresh : contains set "" ≡ false
      fresh = dirname_set-nonempty cfg.exclude_dirnames

  explain_path-test :
      (path : FilePath)
      → (explain_path env wks_home cfg path).0 ≡ (
          if path == wks_home || is_relative_to path wks_home
          then false
          else (evaluate_roots path
              (map (normalize_path env) cfg.include_paths)
              (map (normalize_path env) cfg.exclude_paths)).0
            && (not (
                  is_some (
                    exclusion
                      (dirname_set cfg.exclude_dirnames)
                      (glob_list cfg.exclude_globs)
                      path))
                || is_some (
                    override
                      (dirname_set cfg.include_dirnames)
                      (glob_list cfg.include_globs)
                      path)))
  unfolding explain_path
  explain_path-test path = ground arith

  Excluded→exclusion :
      (path : FilePath)
      → Excluded env cfg path
      → is_some (exclusion (dirname_set cfg.exclude_dirnames) (glob_list cfg.exclude_globs) path)
        ≡ true
  unfolding exclusion
  Excluded→exclusion [] (inl h) = absurd h
  Excluded→exclusion path (inr g) = ground arith
  Excluded→exclusion (part ∷ above) (inl (inl here)) = ground arith
  Excluded→exclusion (part ∷ above) (inl (inr up)) = ground (
    arith,
    Any→excluded_parent (dirname_set cfg.exclude_dirnames)
        (dirname_set-nonempty cfg.exclude_dirnames) above up,
  )

  override_iff :
      (path : FilePath)
      → (is_some (override (dirname_set cfg.include_dirnames) (glob_list cfg.include_globs) path)
          ≡ true)
        ↔ Overridden env cfg path
  unfolding override
  override_iff [] =
      (λ h. ground arith, λ h. ground (arith, dirname_set-nonempty cfg.include_dirnames))
  override_iff (part ∷ above) =
      (λ h. ground (arith, parent-ne part above), λ h. ground (arith, parent-ne part above))

  explain_path-passes :
      (path : FilePath)
      → IsMonitored env cfg path wks_home
      → (explain_path env wks_home cfg path).0 ≡ true
  explain_path-passes path (outside, beside, roots, pass) =
      elim (Bool-cases (
        is_some
          (exclusion (dirname_set cfg.exclude_dirnames) (glob_list cfg.exclude_globs) path))) [
            | inl e ↦ ground (
              arith,
              explain_path-test path,
              allowed,
              (override_iff path).1 (pass (exclusion→Excluded path e)),
            )
            | inr e ↦ ground (arith, explain_path-test path, allowed)
          ]
    where
      allowed :
          (evaluate_roots path
            (map (normalize_path env) cfg.include_paths)
            (map (normalize_path env) cfg.exclude_paths)).0
          ≡ true
      allowed = (evaluate_roots_iff _ _ path).1 roots

  -- The decision of the code is the description: outside the WKS home, inside the roots, and not
  -- excluded by a directory name or a glob unless the parent directory or a glob overrides that.
  pub explain_path_iff :
      (path : FilePath)
      → ((explain_path env wks_home cfg path).0 ≡ true) ↔ IsMonitored env cfg path wks_home
  explain_path_iff path = (
    λ h. (
      ground (arith, explain_path-test path),
      ground (arith, explain_path-test path),
      (evaluate_roots_iff inc exc path).0 (ground (arith, explain_path-test path)),
      λ x.
          (override_iff path).0 (ground (arith, explain_path-test path, Excluded→exclusion path x)),
    ),
    λ m. explain_path-passes path m,
  )
    where
      inc : List FilePath
      inc = map (normalize_path env) cfg.include_paths

      exc : List FilePath
      exc = map (normalize_path env) cfg.exclude_paths
