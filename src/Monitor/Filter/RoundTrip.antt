-- ===== src/Monitor/Filter/RoundTrip.antt =====
-- Adding a name or a glob and removing it (wks/api/monitor/cmd_filter_add.py and
-- cmd_filter_remove.py).
use wks.Common.{
  String, ◌≡◌, refl, inl, inr, true, false, none, some, List, [], ◌∷◌, ◌++◌, arith, string_eq,
  Option-cases, sym, ap,
}
use wks.Common.Text.{strip, is_empty}
use wks.FilePath.{Process}
use wks.Monitor.Explain.{FilterConfig}
use wks.Monitor.Filter.{
  ListName, items, with_items, is_path_list, validate_value, validate_dirname, validate_glob,
  stored, refused, add_value, cmd_filter_add, cmd_filter_remove, remove_value, remove_item,
  removal_key, filter_list_name, find_item, comparable, include_paths, exclude_paths, Validated,
}

module _ (env : Process) where
  comparable_plain :
      (list : ListName) (item : String)
      → is_path_list list ≡ false
      → comparable env list item ≡ item
  unfolding comparable
  comparable_plain list item h = rw h

  -- Validation stores the stripped value, which is not empty.
  validate_value_plain :
      (list : ListName) (value v : String) (f : FilterConfig)
      → is_path_list list ≡ false
      → validate_value env list value f ≡ stored v
      → (v ≡ strip value) × (is_empty v ≡ false)
  unfolding validate_value validate_dirname validate_glob
  validate_value_plain include_paths value v f h e = cc
  validate_value_plain exclude_paths value v f h e = cc
  validate_value_plain _ value v f h e = (ground arith, ground arith)

  find_item_plain :
      (list : ListName) (k item : String) (xs : List String)
      → is_path_list list ≡ false
      → find_item env list k xs ≡ some item
      → item ≡ k
  unfolding find_item
  find_item_plain list k item [] h e = cc
  find_item_plain list k item (x ∷ xs) h e =
      ground (arith, comparable_plain list x h, find_item_plain list k item xs h)

  -- The value that was appended to a list without it is the one that is removed.
  remove_item-push :
      (list : ListName) (k v : String) (xs : List String)
      → find_item env list k xs ≡ none
      → comparable env list v ≡ k
      → remove_item env list k (xs ++ v ∷ []) ≡ some (v, xs)
  unfolding find_item remove_item
  remove_item-push list k v [] e h = ground arith
  remove_item-push list k v (x ∷ xs) e h = ground (arith, remove_item-push list k v xs)

  add_value_success :
      (list : ListName) (v : String) (f : FilterConfig)
      → is_path_list list ≡ false
      → is_empty v ≡ false
      → (add_value env list v f).0.success ≡ true
      → (find_item env list v (items list f) ≡ none)
        × ((add_value env list v f).1 ≡ with_items list (items list f ++ v ∷ []) f)
  unfolding add_value
  add_value_success list v f plain full h =
      elim (Option-cases (find_item env list v (items list f))) [
        | inl e ↦ (e, ground (arith, comparable_plain list v plain))
        | inr (item, e) ↦ absurd (
            ground (
              arith,
              comparable_plain list v plain,
              ap is_empty (find_item_plain list v item _ plain e),
            ))
      ]

  pub with_items_undo :
      (list : ListName) (xs : List String) (f : FilterConfig)
      → with_items list (items list f) (with_items list xs f) ≡ f
  with_items_undo include_paths xs f = refl
  with_items_undo _ xs f = refl

  pub items-with_items :
      (list : ListName) (xs : List String) (f : FilterConfig)
      → items list (with_items list xs f) ≡ xs
  items-with_items include_paths xs f = refl
  items-with_items _ xs f = refl

module _ (repr : String → String) (env : Process) where
  add_success :
      (list_name value : String) (f : FilterConfig) {list : ListName}
      → filter_list_name list_name ≡ some list
      → (cmd_filter_add repr env list_name value f).0.success ≡ true
      → (v : String) × (validate_value env list value f ≡ stored v)
        × (cmd_filter_add repr env list_name value f ≡ add_value env list v f)
  unfolding cmd_filter_add
  add_success list_name value f {list} named h = go (validate_value env list value f) refl
    where
      go :
          (r : Validated)
          → validate_value env list value f ≡ r
          → (v : String) × (validate_value env list value f ≡ stored v)
            × (cmd_filter_add repr env list_name value f ≡ add_value env list v f)
      go (stored v) e = (v, e, ground arith)
      go (refused message) e = absurd (ground arith)

  remove_value_pushed :
      (list : ListName) (list_name value v : String) (f : FilterConfig)
      → removal_key env list value ≡ v
      → remove_item env list v (items list f ++ v ∷ []) ≡ some (v, items list f)
      → ((remove_value env list list_name value (with_items list (items list f ++ v ∷ []) f)).1 ≡ f)
        × ((remove_value env list list_name value
              (with_items list (items list f ++ v ∷ []) f)).0.success
            ≡ true)
  unfolding remove_value
  remove_value_pushed list list_name value v f key removed =
      rw (items-with_items env list (items list f ++ v ∷ []) f, key, removed, remove_value)
        (with_items_undo env list (items list f ++ v ∷ []) f, refl)

  -- If `cmd_filter_add` stores a value in one of the lists of names or globs, `cmd_filter_remove`
  -- with the same list and value succeeds and gives back the filter as it was before.
  pub cmd_filter_remove-cmd_filter_add :
      (list_name value : String) (f : FilterConfig) {list : ListName}
      → filter_list_name list_name ≡ some list
      → is_path_list list ≡ false
      → (cmd_filter_add repr env list_name value f).0.success ≡ true
      → (let g = (cmd_filter_add repr env list_name value f).1 in
          ((cmd_filter_remove repr env list_name value g).1 ≡ f)
          × ((cmd_filter_remove repr env list_name value g).0.success ≡ true))
  unfolding cmd_filter_remove
  cmd_filter_remove-cmd_filter_add list_name value f {list} named plain h =
      let (v, valid, same) = add_success list_name value f named h in
      let (key, full) = validate_value_plain env list value v f plain valid in
      let (fresh, pushed) = add_value_success env list v f plain full (rw same at h) in
      rw (named, cmd_filter_remove, same, pushed)
        (remove_value_pushed list list_name value v f (rw plain (sym key))
          (remove_item-push env list v v (items list f) fresh (comparable_plain env list v plain)))
