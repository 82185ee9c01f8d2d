-- ===== src/Monitor/Filter/Laws.antt =====
-- The directory names of the filter (wks/api/monitor/cmd_filter_add.py).
use wks.Common.{
  String, ◌≡◌, refl, ◌⊎◌, inl, inr, Bool, true, false, ◌||◌, List, [], ◌∷◌, ◌++◌, arith, contains,
  string_eq, Option-cases,
}
use wks.Common.Text.{strip}
use wks.FilePath.{Process}
use wks.Monitor.Explain.{FilterConfig}
use wks.Monitor.Filter.{
  ListName, items, with_items, opposite, validate_value, validate_dirname, Validated, stored,
  refused, add_value, cmd_filter_add, filter_list_name, existing_item, find_item, comparable,
}

-- No directory name is both included and excluded.
abbrev pub IsDisjoint : FilterConfig → Type 0
IsDisjoint f =
    (d : String) → contains f.include_dirnames d ≡ true → contains f.exclude_dirnames d ≡ true → ⊥

contains-append :
    (xs ys : List String) (d : String) → contains (xs ++ ys) d ≡ (contains xs d || contains ys d)
contains-append [] ys d = refl
contains-append (x ∷ xs) ys d = ground (arith, contains-append xs ys d)

-- A name in the list after the append is an old one or the new one.
contains-push :
    (xs : List String) (v d : String)
    → contains (xs ++ v ∷ []) d ≡ true
    → (contains xs d ≡ true) ⊎ (d ≡ v)
contains-push xs v d h = ground (arith, contains-append xs (v ∷ []) d)

clash : {b : Bool} → b ≡ true → b ≡ false → ⊥
clash p q = cc

Validated-cases :
    (r : Validated) → ((v : String) × (r ≡ stored v)) ⊎ ((message : String) × (r ≡ refused message))
Validated-cases (stored v) = inl (v, refl)
Validated-cases (refused message) = inr (message, refl)

module _ (env : Process) where
  -- What validation lets into a list of names is not in the opposite list.
  validate_dirname-fresh :
      (list : ListName) (value v : String) (f : FilterConfig)
      → validate_dirname list value f ≡ stored v
      → contains (items (opposite list) f) v ≡ false
  unfolding validate_dirname
  validate_dirname-fresh list value v f h = ground arith

  IsDisjoint-include :
      (f : FilterConfig) (v : String)
      → IsDisjoint f
      → contains f.exclude_dirnames v ≡ false
      → IsDisjoint (record f { include_dirnames = f.include_dirnames ++ v ∷ [] })
  IsDisjoint-include f v disjoint fresh d inc exc =
      elim (contains-push f.include_dirnames v d inc) [
        | inl old ↦ disjoint d old exc
        | inr new ↦ clash (rw new at exc) fresh
      ]

  IsDisjoint-exclude :
      (f : FilterConfig) (v : String)
      → IsDisjoint f
      → contains f.include_dirnames v ≡ false
      → IsDisjoint (record f { exclude_dirnames = f.exclude_dirnames ++ v ∷ [] })
  IsDisjoint-exclude f v disjoint fresh d inc exc =
      elim (contains-push f.exclude_dirnames v d exc) [
        | inl old ↦ disjoint d inc old
        | inr new ↦ clash (rw new at inc) fresh
      ]

  add_value-cases :
      (list : ListName) (v : String) (f : FilterConfig)
      → ((add_value env list v f).1 ≡ f)
        ⊎ ((add_value env list v f).1 ≡ with_items list (items list f ++ v ∷ []) f)
  unfolding add_value
  add_value-cases list v f =
      elim (Option-cases
        (existing_item (find_item env list (comparable env list v) (items list f)))) [
          | inl e ↦ inr (ground arith)
          | inr (old, e) ↦ inl (ground arith)
        ]

  -- Appending a validated value keeps the invariant.
  push-IsDisjoint :
      (list : ListName) (value v : String) (f : FilterConfig)
      → validate_value env list value f ≡ stored v
      → IsDisjoint f
      → IsDisjoint (with_items list (items list f ++ v ∷ []) f)
  unfolding validate_value
  push-IsDisjoint ListName.include_dirnames value v f h disjoint =
      IsDisjoint-include f v disjoint
        (validate_dirname-fresh ListName.include_dirnames (strip value) v f h)
  push-IsDisjoint ListName.exclude_dirnames value v f h disjoint =
      IsDisjoint-exclude f v disjoint
        (validate_dirname-fresh ListName.exclude_dirnames (strip value) v f h)
  push-IsDisjoint _ value v f h disjoint = disjoint

  add_value-IsDisjoint :
      (list : ListName) (value v : String) (f : FilterConfig)
      → validate_value env list value f ≡ stored v
      → IsDisjoint f
      → IsDisjoint (add_value env list v f).1
  add_value-IsDisjoint list value v f h disjoint = elim (add_value-cases list v f) [
    | inl same ↦ rw same disjoint
    | inr pushed ↦ rw pushed (push-IsDisjoint list value v f h disjoint)
  ]

module _ (repr : String → String) (env : Process) where
  cmd_filter_add-cases :
      (list_name value : String) (f : FilterConfig)
      → ((cmd_filter_add repr env list_name value f).1 ≡ f)
        ⊎ ((list : ListName) × (v : String) × (validate_value env list value f ≡ stored v)
            × ((cmd_filter_add repr env list_name value f).1 ≡ (add_value env list v f).1))
  unfolding cmd_filter_add
  cmd_filter_add-cases list_name value f = elim (Option-cases (filter_list_name list_name)) [
    | inl e ↦ inl (ground arith)
    | inr (list, e) ↦ elim (Validated-cases (validate_value env list value f)) [
      | inl (v, h) ↦ inr (list, v, h, ground arith)
      | inr (message, h) ↦ inl (ground arith)
    ]
  ]

  -- If no directory name is both included and excluded, `cmd_filter_add` keeps it so, whatever the
  -- list, the value and the outcome.
  pub cmd_filter_add-IsDisjoint :
      (list_name value : String) (f : FilterConfig)
      → IsDisjoint f
      → IsDisjoint (cmd_filter_add repr env list_name value f).1
  cmd_filter_add-IsDisjoint list_name value f disjoint =
      elim (cmd_filter_add-cases list_name value f) [
        | inl same ↦ rw same disjoint
        | inr (list, v, valid, added) ↦
            rw added (add_value-IsDisjoint env list value v f valid disjoint)
      ]
