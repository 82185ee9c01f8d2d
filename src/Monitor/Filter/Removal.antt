-- ===== src/Monitor/Filter/Removal.antt =====
-- Which item `cmd_filter_remove` (wks/api/monitor/cmd_filter_remove.py) takes out.
use wks.Common.{
  String, ◌<>◌, ◌≡◌, refl, ◌⊎◌, inl, inr, true, false, Option, none, some, List, [], ◌∷◌, ◌++◌,
  ◌==◌, arith, string_eq, Bool-cases, Option-cases, All, ap,
}
use wks.FilePath.{Process}
use wks.Monitor.Explain.{FilterConfig}
use wks.Monitor.Filter.{
  ListName, items, with_items, comparable, removal_key, filter_list_name, remove_item, remove_value,
  cmd_filter_remove, FilterRemoveOutput, remove_failed,
}
use wks.Monitor.Filter.RoundTrip.{with_items_undo, items-with_items}

module _ (env : Process) where
  -- No item of the list compares equal to the key.
  abbrev pub Lacks : ListName → String → List String → Type 0
  Lacks list key = All (λ item. (comparable env list item == key) ≡ false)

  -- The first item that compares equal to the key stands between the others.
  pub record IsFirst (list : ListName) (key : String) (xs : List String) (removed : String)
      (left : List String) : Type 0 where
    pub before : List String
    pub after : List String
    pub split : xs ≡ before ++ removed ∷ after
    pub rest : left ≡ before ++ after
    pub lacks : Lacks list key before
    pub equal : comparable env list removed ≡ key

  remove_item-none :
      (list : ListName) (key : String) (xs : List String)
      → remove_item env list key xs ≡ none
      → Lacks list key xs
  unfolding remove_item
  remove_item-none list key [] e = tt
  remove_item-none list key (x ∷ xs) e = elim (Bool-cases (comparable env list x == key)) [
    | inl h ↦ absurd (ground arith)
    | inr h ↦ elim (Option-cases (remove_item env list key xs)) [
      | inl n ↦ (h, remove_item-none list key xs n)
      | inr ((removed, left), n) ↦ absurd (ground arith)
    ]
  ]

  IsFirst-cons :
      (list : ListName) (key x : String) (xs : List String) (removed : String) (left : List String)
      → (comparable env list x == key) ≡ false
      → IsFirst list key xs removed left
      → IsFirst list key (x ∷ xs) removed (x ∷ left)
  IsFirst-cons list key x xs removed left h i = record {
    before = x ∷ i.before;
    after = i.after;
    split = ap (λ ys. x ∷ ys) i.split;
    rest = ap (λ ys. x ∷ ys) i.rest;
    lacks = (h, i.lacks);
    equal = i.equal;
  }

  remove_item-some :
      (list : ListName) (key : String) (xs : List String) (removed : String) (left : List String)
      → remove_item env list key xs ≡ some (removed, left)
      → IsFirst list key xs removed left
  unfolding remove_item
  remove_item-some list key [] removed left e = absurd (ground arith)
  remove_item-some list key (x ∷ xs) removed left e =
      elim (Bool-cases (comparable env list x == key)) [
        | inl h ↦ record {
          before = [];
          after = xs;
          split = ground (arith, h);
          rest = ground (arith, h);
          lacks = tt;
          equal = ground (arith, h);
        }
        | inr h ↦ elim (Option-cases (remove_item env list key xs)) [
          | inl n ↦ absurd (ground (arith, h))
          | inr ((gone, rest), n) ↦
              let i =
                IsFirst-cons list key x xs gone rest h (remove_item-some list key xs gone rest n) in
              record {
                before = i.before;
                after = i.after;
                split = ground (arith, h, i.split);
                rest = ground (arith, h, i.rest);
                lacks = i.lacks;
                equal = ground (arith, h, i.equal);
              }
        ]
      ]

  -- The list of that name has an item that compares equal to the value: the first one is taken out and
  -- reported, and nothing else is changed.
  pub record Removes (list : ListName) (value : String) (f : FilterConfig)
      (result : FilterRemoveOutput × FilterConfig) : Type 0 where
    pub removed : String
    pub reported : result.0.value_removed ≡ some removed
    pub succeeds : result.0.success ≡ true
    pub first :
        IsFirst list (removal_key env list value) (items list f) removed (items list result.1)
    pub others : with_items list (items list f) result.1 ≡ f

  -- Nothing is removed: the filter is as before.
  pub record RemovesNothing (f : FilterConfig) (result : FilterRemoveOutput × FilterConfig)
      : Type 0 where
    pub silent : result.0.value_removed ≡ none
    pub fails : result.0.success ≡ false
    pub unchanged : result.1 ≡ f

  -- What the command does, by the list that its argument names.
  abbrev pub RemoveOutcome :
      Option ListName → String → FilterConfig → FilterRemoveOutput × FilterConfig → Type 0
  RemoveOutcome none value f result = RemovesNothing f result
  RemoveOutcome (some list) value f result =
      (Lacks list (removal_key env list value) (items list f) × RemovesNothing f result)
      ⊎ Removes list value f result

  remove_value-RemoveOutcome :
      (list : ListName) (list_name value : String) (f : FilterConfig)
      → RemoveOutcome (some list) value f (remove_value env list list_name value f)
  unfolding remove_value
  remove_value-RemoveOutcome list list_name value f =
      elim (Option-cases (remove_item env list (removal_key env list value) (items list f))) [
        | inl e ↦ inl (
          remove_item-none list (removal_key env list value) (items list f) e,
          record { silent = ground arith; fails = ground arith; unchanged = ground arith },
        )
        | inr ((removed, left), e) ↦
            let i =
              remove_item-some list (removal_key env list value) (items list f) removed left e in
            let changed : (remove_value env list list_name value f).1 ≡ with_items list left f =
              ground arith in
            inr (record {
              removed = removed;
              reported = ground arith;
              succeeds = ground arith;
              first = rw changed (rw (items-with_items env list left f) i);
              others = rw changed (with_items_undo env list left f);
            })
      ]

  module _ (repr : String → String) where
    -- For the name of a list, `cmd_filter_remove` takes the first item that compares equal to the value
    -- out of that list, reports it and changes nothing else; if the list has no such item, or the name is
    -- that of no list, it fails and the filter is as before.
    pub cmd_filter_remove_lem :
        (list_name value : String) (f : FilterConfig)
        → RemoveOutcome
            (filter_list_name list_name)
            value
            f
            (cmd_filter_remove repr env list_name value f)
    unfolding cmd_filter_remove
    cmd_filter_remove_lem list_name value f = by_list (filter_list_name list_name)
      where
        by_list :
            (named : Option ListName)
            → RemoveOutcome named value f (elim named [
              | none ↦
                  let message = "Unknown list_name: " <> repr list_name in
                  (remove_failed message false (message ∷ []), f)
              | some list ↦ remove_value env list list_name value f
            ])
        by_list none = record { silent = refl; fails = refl; unchanged = refl }
        by_list (some list) = remove_value-RemoveOutcome list list_name value f
