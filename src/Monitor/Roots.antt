-- ===== src/Monitor/Roots.antt =====
-- `_evaluate_roots` (wks/api/monitor/_evaluate_roots.py): the nearest configured root above a path
-- decides, and an exclusion wins over an inclusion of the same root.
use wks.Common.{
  String, ◌<>◌, Bool, true, false, ◌≡◌, refl, ◌↔◌, List, [], ◌∷◌, ◌++◌, ◌≤◌, arith, length, ap,
  contains, list_eq, string_eq, if◌then◌else◌, Bool-cases, inl, inr, length-append, sym, ◌∙◌,
}
use mathlib.Core.Bool.{false≢true}
use mathlib.Core.List.{tail-eq_of_cons-eq}
use wks.FilePath.{FilePath, to_string}

-- The loop climbs from the path to the root, which is its own parent.
unfoldable pub evaluate_roots : FilePath → List FilePath → List FilePath → Bool × String
evaluate_roots [] include_root_set exclude_root_set =
    if contains exclude_root_set []
    then (false, "Excluded by root " <> to_string [])
    else if contains include_root_set []
    then (true, "Included by root " <> to_string [])
    else elim include_root_set [
      | [] ↦ (false, "No include_paths defined; default exclude")
      | _ ∷ _ ↦ (false, "Outside include_paths")
    ]
evaluate_roots (part ∷ above) include_root_set exclude_root_set =
    if contains exclude_root_set (part ∷ above)
    then (false, "Excluded by root " <> to_string (part ∷ above))
    else if contains include_root_set (part ∷ above)
    then (true, "Included by root " <> to_string (part ∷ above))
    else evaluate_roots above include_root_set exclude_root_set

module _ (inc exc : List FilePath) where
  -- Some included root stands above the path (or is the path), and no directory from the path up
  -- to that root, itself included, is excluded.
  pub record InsideRoots (path : FilePath) : Type 0 where
    pub below : List String
    pub root : FilePath
    pub split : path ≡ below ++ root
    pub included : contains inc root ≡ true
    pub clear :
        (lower : List String) (upper : FilePath)
        → path ≡ lower ++ upper
        → length root ≤ length upper
        → contains exc upper ≡ false

nil_of_short : (path : FilePath) → length path ≤ 0 → path ≡ []
nil_of_short [] h = refl
nil_of_short (part ∷ above) h = absurd (omega arith)

-- A suffix as long as the whole is the whole.
whole_suffix :
    (lower upper : FilePath) → length (lower ++ upper) ≤ length upper → upper ≡ lower ++ upper
whole_suffix [] upper h = refl
whole_suffix (l ∷ lower) upper h = absurd (omega (arith, length-append lower upper))

-- At the root the path is decided by the sets alone.
roots_decide :
    (inc exc : List FilePath) → (evaluate_roots [] inc exc).0 ≡ true → contains inc [] ≡ true
unfolding evaluate_roots
roots_decide [] exc h = ground arith
roots_decide (r ∷ inc) exc h = ground arith

module _ (inc exc : List FilePath) where
  InsideRoots-here :
      (path : FilePath)
      → contains exc path ≡ false
      → contains inc path ≡ true
      → InsideRoots inc exc path
  InsideRoots-here path clear included = record {
    below = [];
    root = path;
    split = refl;
    included = included;
    clear = λ lower upper e h.
        let same : upper ≡ path = whole_suffix lower upper (rw (← e) h) ∙ sym e in rw same clear;
  }

  clear_up :
      (part : String) (above root : FilePath)
      → contains exc (part ∷ above) ≡ false
      → ((lower : List String) (upper : FilePath)
          → above ≡ lower ++ upper
          → length root ≤ length upper
          → contains exc upper ≡ false)
      → (lower : List String) (upper : FilePath) → (part ∷ above) ≡ lower ++ upper
      → length root ≤ length upper
      → contains exc upper ≡ false
  clear_up part above root here up [] upper e h = rw (← e) here
  clear_up part above root here up (l ∷ lower) upper e h = up lower upper (tail-eq_of_cons-eq e) h

  InsideRoots-up :
      (part : String) (above : FilePath)
      → contains exc (part ∷ above) ≡ false
      → InsideRoots inc exc above
      → InsideRoots inc exc (part ∷ above)
  InsideRoots-up part above clear r = record {
    below = part ∷ r.below;
    root = r.root;
    split = ap (◌∷◌ part) r.split;
    included = r.included;
    clear = clear_up part above r.root clear r.clear;
  }

  evaluate_roots_sound :
      (path : FilePath) → (evaluate_roots path inc exc).0 ≡ true → InsideRoots inc exc path
  unfolding evaluate_roots
  evaluate_roots_sound [] h = InsideRoots-here [] (ground arith) (roots_decide inc exc h)
  evaluate_roots_sound (part ∷ above) h = elim (Bool-cases (contains exc (part ∷ above))) [
    | inl e ↦ absurd (ground arith)
    | inr e ↦ elim (Bool-cases (contains inc (part ∷ above))) [
      | inl i ↦ InsideRoots-here (part ∷ above) e i
      | inr i ↦ InsideRoots-up part above e (evaluate_roots_sound above (rw (e, i) at h))
    ]
  ]

  -- Not at the path itself, so one component further up.
  InsideRoots-parent :
      (part : String) (above : FilePath)
      → contains inc (part ∷ above) ≡ false
      → InsideRoots inc exc (part ∷ above)
      → InsideRoots inc exc above
  InsideRoots-parent part above i r = go r.below r.split
    where
      go : (below : List String) → (part ∷ above) ≡ below ++ r.root → InsideRoots inc exc above
      go [] e = absurd (false≢true (sym i ∙ (rw e r.included)))
      go (b ∷ below) e = record {
        below = below;
        root = r.root;
        split = tail-eq_of_cons-eq e;
        included = r.included;
        clear = λ lower upper u h. r.clear (part ∷ lower) upper (ap (◌∷◌ part) u) h;
      }

  length-root-le : (path : FilePath) (r : InsideRoots inc exc path) → length r.root ≤ length path
  length-root-le path r = omega (arith, ap length r.split, length-append r.below r.root)

  evaluate_roots_complete :
      (path : FilePath) → InsideRoots inc exc path → (evaluate_roots path inc exc).0 ≡ true
  unfolding evaluate_roots
  evaluate_roots_complete [] r = rw (r.clear [] [] refl (length-root-le [] r), top)
    where
      top : contains inc [] ≡ true
      top = rw (← nil_of_short r.root (length-root-le [] r)) r.included
  evaluate_roots_complete (part ∷ above) r = elim (Bool-cases (contains inc (part ∷ above))) [
    | inl i ↦ rw (self, i)
    | inr i ↦ rw (self, i) (evaluate_roots_complete above (InsideRoots-parent part above i r))
  ]
    where
      self : contains exc (part ∷ above) ≡ false
      self = r.clear [] (part ∷ above) refl (length-root-le (part ∷ above) r)

  -- A path is allowed by the roots exactly if an included root stands above it (or is the path),
  -- and no directory from the path up to that root, the root included, is an excluded one.
  pub evaluate_roots_iff :
      (path : FilePath) → ((evaluate_roots path inc exc).0 ≡ true) ↔ InsideRoots inc exc path
  evaluate_roots_iff path = (evaluate_roots_sound path, evaluate_roots_complete path)
