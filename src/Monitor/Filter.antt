-- ===== src/Monitor/Filter.antt =====
-- The filter commands: wks/api/monitor/validate_value.py, cmd_filter_add.py and
-- cmd_filter_remove.py. The state is the filter section of the loaded configuration, which a
-- command saves only where it says so; the progress steps that a command yields are left out.
pub mod Laws
pub mod Removal
pub mod RoundTrip
use wks.Common.{
  String, ◌<>◌, Bool, true, false, not, ◌&&◌, ◌||◌, Option, none, some, List, [], ◌∷◌, ◌++◌, ◌==◌,
  contains, string_eq, if◌then◌else◌,
}
use wks.Common.Text.{strip, is_empty, starts_with, drop_chars, text_length, has_char}
use wks.FilePath.{Process, normalize_path, to_string}
use wks.Monitor.Explain.{FilterConfig}

-- The names of `_FilterConfig`'s fields, which `MonitorConfig.get_filter_list_names` returns.
pub data ListName : Type 0 where
  include_paths exclude_paths include_dirnames exclude_dirnames include_globs exclude_globs :
      ListName

unfoldable pub filter_list_name : String → Option ListName
filter_list_name list_name =
    if list_name == "include_paths"
    then some include_paths
    else if list_name == "exclude_paths"
    then some exclude_paths
    else if list_name == "include_dirnames"
    then some include_dirnames
    else if list_name == "exclude_dirnames"
    then some exclude_dirnames
    else if list_name == "include_globs"
    then some include_globs
    else if list_name == "exclude_globs"
    then some exclude_globs
    else none

-- `getattr(cfg.filter, list_name)`
abbrev pub items : ListName → FilterConfig → List String
items include_paths f = f.include_paths
items exclude_paths f = f.exclude_paths
items include_dirnames f = f.include_dirnames
items exclude_dirnames f = f.exclude_dirnames
items include_globs f = f.include_globs
items exclude_globs f = f.exclude_globs

-- The filter after the list of that name was changed in place.
abbrev pub with_items : ListName → List String → FilterConfig → FilterConfig
with_items include_paths xs f = record f { include_paths = xs }
with_items exclude_paths xs f = record f { exclude_paths = xs }
with_items include_dirnames xs f = record f { include_dirnames = xs }
with_items exclude_dirnames xs f = record f { exclude_dirnames = xs }
with_items include_globs xs f = record f { include_globs = xs }
with_items exclude_globs xs f = record f { exclude_globs = xs }

-- `list_name in ("include_paths", "exclude_paths")`
abbrev pub is_path_list : ListName → Bool
is_path_list include_paths = true
is_path_list exclude_paths = true
is_path_list _ = false

-- The value to store, or the message of the error.
pub data Validated : Type 0 where
  stored : String → Validated
  refused : String → Validated

abbrev pub opposite : ListName → ListName
opposite include_dirnames = exclude_dirnames
opposite _ = include_dirnames

-- The name of a list, as messages print it.
abbrev pub list_text : ListName → String
list_text include_paths = "include_paths"
list_text exclude_paths = "exclude_paths"
list_text include_dirnames = "include_dirnames"
list_text exclude_dirnames = "exclude_dirnames"
list_text include_globs = "include_globs"
list_text exclude_globs = "exclude_globs"

unfoldable pub validate_path : Process → String → Validated
validate_path env value =
    let value_resolved = to_string (normalize_path env value) in
    let home_dir = to_string env.home in
    if starts_with value_resolved home_dir
    then stored ("~" <> drop_chars (text_length home_dir) value_resolved)
    else stored value_resolved

-- `any(ch in value for ch in "*?[]")`
unfoldable pub has_wildcard : String → Bool
has_wildcard value =
    has_char b'*' value || has_char b'?' value || has_char b'[' value || has_char b']' value

unfoldable pub validate_dirname : ListName → String → FilterConfig → Validated
validate_dirname list value f =
    if is_empty value
    then refused "Directory name cannot be empty"
    else if has_wildcard value
    then refused "Directory names cannot contain wildcard characters"
    else if has_char b'/' value || has_char 92 value
    then refused "Directory names cannot contain path separators"
    else if contains (items (opposite list) f) value
    then refused
        ("Directory name '" <> (value <> ("' already present in " <> list_text (opposite list))))
    else stored value

-- The trial match of the glob in the source cannot raise: `fnmatch` gives every pattern a meaning.
unfoldable pub validate_glob : String → Validated
validate_glob value =
    if is_empty value then refused "Glob pattern cannot be empty" else stored value

unfoldable pub validate_value : Process → ListName → String → FilterConfig → Validated
validate_value env include_paths value f = validate_path env (strip value)
validate_value env exclude_paths value f = validate_path env (strip value)
validate_value env include_dirnames value f = validate_dirname include_dirnames (strip value) f
validate_value env exclude_dirnames value f = validate_dirname exclude_dirnames (strip value) f
validate_value env include_globs value f = validate_glob (strip value)
validate_value env exclude_globs value f = validate_glob (strip value)

-- `str(normalize_path(item)) if resolve_path else item`
unfoldable pub comparable : Process → ListName → String → String
comparable env list item = if is_path_list list then to_string (normalize_path env item) else item

-- The first item that compares equal to the value.
unfoldable pub find_item : Process → ListName → String → List String → Option String
find_item env list cmp_value [] = none
find_item env list cmp_value (item ∷ rest) =
    if comparable env list item == cmp_value then some item else find_item env list cmp_value rest

-- `MonitorFilterAddOutput`
pub record FilterAddOutput : Type 0 where
  pub success : Bool
  pub message : String
  pub value_stored : Option String
  pub validation_failed : Bool
  pub already_exists : Bool
  pub errors : List String

-- `if existing:`; an item that is the empty text does not count.
abbrev pub existing_item : Option String → Option String
existing_item none = none
existing_item (some item) = if is_empty item then none else some item

-- `_build_result` of a failure.
abbrev pub add_failed : String → Bool → Bool → FilterAddOutput
add_failed message validation_failed already_exists = record {
  success = false;
  message = message;
  value_stored = none;
  validation_failed = validation_failed;
  already_exists = already_exists;
  errors = if is_empty message then [] else message ∷ [];
}

-- From the validated value on: the check for duplicates, the append and the save.
unfoldable pub add_value :
    Process → ListName → String → FilterConfig → FilterAddOutput × FilterConfig
add_value env list value f =
    elim (existing_item (find_item env list (comparable env list value) (items list f))) [
      | some existing ↦
          (add_failed ("Already in " <> (list_text list <> (": " <> existing))) false true, f)
      | none ↦ (
        record {
          success = true;
          message = "Added to " <> (list_text list <> (": " <> value));
          value_stored = some value;
          validation_failed = false;
          already_exists = false;
          errors = [];
        },
        with_items list (items list f ++ value ∷ []) f,
      )
    ]

-- `repr` is the text of `{list_name!r}` in the message.
module _ (repr : String → String) where
  unfoldable pub cmd_filter_add :
      Process → String → String → FilterConfig → FilterAddOutput × FilterConfig
  cmd_filter_add env list_name value f = elim (filter_list_name list_name) [
    | none ↦ (add_failed ("Unknown list_name: " <> repr list_name) false false, f)
    | some list ↦ elim (validate_value env list value f) [
      | refused error ↦ (add_failed error true false, f)
      | stored value_to_store ↦ add_value env list value_to_store f
    ]
  ]

-- `MonitorFilterRemoveOutput`
pub record FilterRemoveOutput : Type 0 where
  pub success : Bool
  pub message : String
  pub value_removed : Option String
  pub not_found : Bool
  pub errors : List String

-- The loop with `del items[idx]` and `break`: the item that was removed and what is left.
unfoldable pub remove_item :
    Process → ListName → String → List String → Option (String × List String)
remove_item env list value_resolved [] = none
remove_item env list value_resolved (item ∷ rest) =
    if comparable env list item == value_resolved
    then some (item, rest)
    else elim (remove_item env list value_resolved rest) [
      | none ↦ none
      | some (removed, left) ↦ some (removed, item ∷ left)
    ]

-- `str(normalize_path(value)) if resolve_path else value.strip()`
abbrev pub removal_key : Process → ListName → String → String
removal_key env list value =
    if is_path_list list then to_string (normalize_path env value) else strip value

abbrev pub remove_failed : String → Bool → List String → FilterRemoveOutput
remove_failed message not_found errors = record {
  success = false;
  message = message;
  value_removed = none;
  not_found = not_found;
  errors = errors;
}

-- From the resolved list on: the search, the deletion and the save.
unfoldable pub remove_value :
    Process → ListName → String → String → FilterConfig → FilterRemoveOutput × FilterConfig
remove_value env list list_name value f =
    elim (remove_item env list (removal_key env list value) (items list f)) [
      | none ↦ (remove_failed ("Value not found in " <> (list_name <> (": " <> value))) true [], f)
      | some (removed, left) ↦ (
        record {
          success = true;
          message = "Removed from " <> (list_name <> (": " <> removed));
          value_removed = some removed;
          not_found = false;
          errors = [];
        },
        with_items list left f,
      )
    ]

module _ (repr : String → String) where
  unfoldable pub cmd_filter_remove :
      Process → String → String → FilterConfig → FilterRemoveOutput × FilterConfig
  cmd_filter_remove env list_name value f = elim (filter_list_name list_name) [
    | none ↦
        let message = "Unknown list_name: " <> repr list_name in
        (remove_failed message false (message ∷ []), f)
    | some list ↦ remove_value env list list_name value f
  ]
