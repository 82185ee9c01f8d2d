-- ===== src/Monitor/Priority/Nearest.antt =====
-- `find_priority_dir` (wks/api/monitor/find_priority_dir.py) against the configured directories above a
-- path.
use wks.Common.{
  ℕ, ◌≤◌, ◌<◌, String, ◌≡◌, refl, Option, none, some, List, [], ◌∷◌, ◌++◌, arith, length,
  length-append, All, list_eq, string_eq, Option-cases, inl, inr, ap, ◌∙◌, ◌⊎◌, ◌≢◌,
}
use mathlib.Core.List.{tail-eq_of_cons-eq}
use wks.Common.Dict.{Dict, lookup}
use wks.Common.Float.{Float}
use wks.FilePath.{FilePath, Process, parents}
use wks.Monitor.Priority.{search_ancestors, find_priority_dir, resolved_priority}

module _ (F : Float) (dirs : Dict FilePath F.Number) where
  -- The directories above a path are shorter than the path.
  shorter_parents :
      (path : FilePath) (n : ℕ) → length path ≤ n → All (λ p. length p < n) (parents path)
  shorter_parents [] n h = tt
  shorter_parents (part ∷ above) n h = (omega arith, shorter_parents above n (omega arith))

  -- Once a directory is found, no shorter one replaces it.
  search_ancestors_keep :
      (best : FilePath) (value : F.Number) (rest : List FilePath)
      → All (λ p. length p < length best) rest
      → search_ancestors F dirs rest (some best, value) ≡ (some best, value)
  unfolding search_ancestors
  search_ancestors_keep best value [] h = refl
  search_ancestors_keep best value (p ∷ rest) (h, hs) =
      ground (arith, search_ancestors_keep best value rest hs)

  -- The directory that a search of the ancestors of `path` must return, with its value.
  pub record IsNearest (path best : FilePath) (value : F.Number) : Type 0 where
    pub below : List String
    pub split : path ≡ below ++ best
    pub found : lookup best dirs ≡ some value
    pub deepest :
        (lower : List String) (upper : FilePath)
        → path ≡ lower ++ upper
        → lookup upper dirs ≢ none
        → length upper ≤ length best

  -- No directory above the path, and not the path, is configured.
  abbrev pub IsUnassigned : FilePath → Type 0
  IsUnassigned path =
      (lower : List String) (upper : FilePath) → path ≡ lower ++ upper → lookup upper dirs ≡ none

module _ (F : Float) (dirs : Dict FilePath F.Number) where
  IsNearest-here :
      (path : FilePath) (value : F.Number)
      → lookup path dirs ≡ some value
      → IsNearest F dirs path path value
  IsNearest-here path value found = record {
    below = [];
    split = refl;
    found = found;
    deepest = λ lower upper e h. omega (arith, ap length e, length-append lower upper);
  }

  IsUnassigned-up :
      (part : String) (above : FilePath)
      → lookup (part ∷ above) dirs ≡ none
      → IsUnassigned F dirs above
      → IsUnassigned F dirs (part ∷ above)
  IsUnassigned-up part above here up [] upper e = rw (← e) here
  IsUnassigned-up part above here up (l ∷ lower) upper e = up lower upper (tail-eq_of_cons-eq e)

  deepest_up :
      (part : String) (above best : FilePath)
      → lookup (part ∷ above) dirs ≡ none
      → ((lower : List String) (upper : FilePath)
          → above ≡ lower ++ upper
          → lookup upper dirs ≢ none
          → length upper ≤ length best)
      → (lower : List String) (upper : FilePath) → (part ∷ above) ≡ lower ++ upper
      → lookup upper dirs ≢ none
      → length upper ≤ length best
  deepest_up part above best here up [] upper e h = absurd (h (rw (← e) here))
  deepest_up part above best here up (l ∷ lower) upper e h = up lower upper (tail-eq_of_cons-eq e) h

  IsNearest-up :
      (part : String) (above best : FilePath) (value : F.Number)
      → lookup (part ∷ above) dirs ≡ none
      → IsNearest F dirs above best value
      → IsNearest F dirs (part ∷ above) best value
  IsNearest-up part above best value here r = record {
    below = part ∷ r.below;
    split = ap (◌∷◌ part) r.split;
    found = r.found;
    deepest = deepest_up part above best here r.deepest;
  }

  -- Either nothing is configured and the start value is returned, or the nearest directory is.
  abbrev pub Outcome : FilePath → F.Number → Option FilePath × F.Number → Type 0
  Outcome path start r =
      (r ≡ (none, start)) × IsUnassigned F dirs path
      ⊎ ((best : FilePath) × (value : F.Number) × (r ≡ (some best, value))
          × IsNearest F dirs path best value)

  search_ancestors_hit :
      (path : FilePath) (start value : F.Number)
      → lookup path dirs ≡ some value
      → search_ancestors F dirs (path ∷ parents path) (none, start) ≡ (some path, value)
  unfolding search_ancestors
  search_ancestors_hit path start value e = ground (
    arith,
    search_ancestors_keep F dirs path value (parents path)
        (shorter_parents F dirs path (length path) (omega arith)),
  )

  search_ancestors_miss :
      (path : FilePath) (start : F.Number) (rest : List FilePath)
      → lookup path dirs ≡ none
      → search_ancestors F dirs (path ∷ rest) (none, start)
        ≡ search_ancestors F dirs rest (none, start)
  unfolding search_ancestors
  search_ancestors_miss path start rest e = ground arith

  search_ancestors-nil :
      (start : F.Number) → search_ancestors F dirs [] (none, start) ≡ (none, start)
  unfolding search_ancestors
  search_ancestors-nil start = refl

  Outcome-up :
      (part : String) (above : FilePath) (start : F.Number) (r : Option FilePath × F.Number)
      → lookup (part ∷ above) dirs ≡ none
      → Outcome above start r
      → Outcome (part ∷ above) start r
  Outcome-up part above start r e (inl (same, free)) = inl (same, IsUnassigned-up part above e free)
  Outcome-up part above start r e (inr (best, value, same, near)) =
      inr (best, value, same, IsNearest-up part above best value e near)

  nothing_at_root : lookup [] dirs ≡ none → IsUnassigned F dirs []
  nothing_at_root e [] upper h = rw (← h) e
  nothing_at_root e (l ∷ lower) upper h = absurd (omega (arith, ap length h))

  search_ancestors-Outcome :
      (path : FilePath) (start : F.Number)
      → Outcome path start (search_ancestors F dirs (path ∷ parents path) (none, start))
  search_ancestors-Outcome [] start = elim (Option-cases (lookup [] dirs)) [
    | inr (value, e) ↦
        inr ([], value, search_ancestors_hit [] start value e, IsNearest-here [] value e)
    | inl e ↦
        inl (search_ancestors_miss [] start [] e ∙ search_ancestors-nil start, nothing_at_root e)
  ]
  search_ancestors-Outcome (part ∷ above) start = elim (Option-cases (lookup (part ∷ above) dirs)) [
    | inr (value, e) ↦ inr (
      part ∷ above,
      value,
      search_ancestors_hit (part ∷ above) start value e,
      IsNearest-here (part ∷ above) value e,
    )
    | inl e ↦
        rw (search_ancestors_miss (part ∷ above) start (above ∷ parents above) e)
          (Outcome-up part above start _ e (search_ancestors-Outcome above start))
  ]

module _ (F : Float) where
  -- `find_priority_dir` returns no directory and the default 100.0 if neither the path nor a
  -- directory above it is configured; else the deepest configured one of these, with its value.
  pub find_priority_dir_lem :
      (env : Process) (path : FilePath) (priority_dirs : Dict String F.Number)
      → Outcome F
          (resolved_priority F env priority_dirs)
          path
          F.hundred
          (find_priority_dir F env path priority_dirs)
  unfolding find_priority_dir
  find_priority_dir_lem env path priority_dirs =
      search_ancestors-Outcome F (resolved_priority F env priority_dirs) path F.hundred
