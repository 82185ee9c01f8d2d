-- ===== src/FilePath/Laws.antt =====
-- The ancestors of a path.
use wks.Common.{
  String, ◌≡◌, some, none, List, [], ◌∷◌, ◌++◌, arith, list_eq, string_eq, inl, inr, Option-cases,
}
use wks.FilePath.{FilePath, relative_to}

pub relative_to-append :
    (path base : FilePath) (below : List String)
    → relative_to path base ≡ some below
    → path ≡ below ++ base
unfolding relative_to
relative_to-append [] base below h = ground arith
relative_to-append (part ∷ above) base below h = elim (Option-cases (relative_to above base)) [
  | inl e ↦ ground arith
  | inr (b, e) ↦ ground (arith, relative_to-append above base b)
]

-- A path that lies below the base is relative to it.
pub relative_to-some :
    (below : List String) (path base : FilePath)
    → path ≡ below ++ base
    → relative_to path base ≡ none
    → ⊥
unfolding relative_to
relative_to-some [] [] base h e = absurd (ground (arith, h, e))
relative_to-some [] (part ∷ above) base h e = absurd (ground (arith, h, e))
relative_to-some (b ∷ below) [] base h e = absurd (ground (arith, h))
relative_to-some (b ∷ below) (part ∷ above) base h e =
    elim (Option-cases (relative_to above base)) [
      | inl n ↦ relative_to-some below above base (ground (arith, h)) n
      | inr (found, n) ↦ absurd (ground (arith, e, n))
    ]
