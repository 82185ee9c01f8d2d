-- ===== src/Monitor/Commands.antt =====
-- The other commands of wks/api/monitor: cmd_priority_add.py, cmd_priority_remove.py,
-- cmd_priority_show.py, cmd_filter_show.py and cmd_check.py, with
-- wks/api/config/find_matching_path_key.py. A command on priorities returns its output and the
-- dictionary that it saves. The progress steps are left out.
pub mod Laws
use wks.Common.{
  ℕ, String, ◌<>◌, Bool, true, false, not, ◌&&◌, ◌||◌, Option, none, some, List, [], ◌∷◌, ◌++◌, map,
  ◌==◌, string_eq, if◌then◌else◌, length, contains,
}
use wks.Common.Dict.{Dict, lookup, insert, erase, keys}
use wks.Common.Float.{Float}
use wks.Common.Text.{is_empty, starts_with, has_part}
use wks.FilePath.{FilePath, Process, normalize_path, to_string}
use wks.Uri.{uri_path}
use wks.Monitor.Explain.{FilterConfig, explain_path}
use wks.Monitor.Priority.{PriorityWeights, calculate_priority}
use wks.Monitor.Filter.{filter_list_name, items}

-- `str(normalize_path(text))`
abbrev pub resolved : Process → String → String
resolved env text = to_string (normalize_path env text)

unfoldable pub find_key : Process → String → List String → Option String
find_key env candidate_norm [] = none
find_key env candidate_norm (key ∷ rest) =
    if resolved env key == candidate_norm then some key else find_key env candidate_norm rest

unfoldable pub find_matching_path_key {ℓ} :
    {V : Type ℓ} → Process → Dict String V → String → Option String
find_matching_path_key env path_map candidate =
    find_key env (resolved env candidate) (keys path_map)

-- `trace[-1] if trace else default`
abbrev pub last_or : String → List String → String
last_or default [] = default
last_or default (x ∷ []) = x
last_or default (x ∷ y ∷ rest) = last_or default (y ∷ rest)

module _ (F : Float) where
  open F use {Number}

  -- `MonitorPriorityAddOutput`
  pub record PriorityAddOutput : Type 0 where
    pub success : Bool
    pub message : String
    pub path_stored : String
    pub new_priority : Number
    pub created : Bool
    pub already_exists : Bool
    pub old_priority : Option Number

  -- `show` is `str` of a float.
  module _ (show : Number → String) (env : Process) where
    -- The branches of the command; the `KeyError` of a key that was just found cannot happen, so its
    -- case in `updated` only fills the field.
    abbrev pub store_priority :
        String
        → Number
        → Dict String Number
        → Option String
        → PriorityAddOutput × Dict String Number
    store_priority path_resolved priority dirs none = (
      record {
        success = true;
        message =
            "Set priority for " <> (path_resolved <> (": " <> (show priority <> " (created)")));
        path_stored = path_resolved;
        new_priority = priority;
        created = true;
        already_exists = false;
        old_priority = none;
      },
      insert path_resolved priority dirs,
    )
    store_priority path_resolved priority dirs (some existing_key) =
        let old_priority = lookup existing_key dirs in
        (
          record {
            success = true;
            message =
                "Updated priority for "
                <> (existing_key
                    <> (": "
                        <> (elim old_priority [ none ↦ "" | some old ↦ show old ]
                            <> (" → " <> show priority))));
            path_stored = existing_key;
            new_priority = priority;
            created = false;
            already_exists = true;
            old_priority = old_priority;
          },
          insert existing_key priority dirs,
        )

    unfoldable pub cmd_priority_add :
        String → Number → Dict String Number → PriorityAddOutput × Dict String Number
    cmd_priority_add path priority dirs =
        store_priority (resolved env path) priority dirs
          (find_matching_path_key env dirs (resolved env path))

  -- `MonitorPriorityRemoveOutput`
  pub record PriorityRemoveOutput : Type 0 where
    pub success : Bool
    pub message : String
    pub path_removed : Option String
    pub priority : Option Number
    pub not_found : Option Bool

  abbrev not_removed : String → PriorityRemoveOutput
  not_removed message = record {
    success = false;
    message = message;
    path_removed = none;
    priority = none;
    not_found = some true;
  }

  abbrev pub remove_key :
      String → Dict String Number → Option String → PriorityRemoveOutput × Dict String Number
  remove_key path_resolved dirs none =
      (not_removed ("Not a priority directory: " <> path_resolved), dirs)
  remove_key path_resolved dirs (some existing_key) = (
    record {
      success = true;
      message = "Removed priority directory: " <> existing_key;
      path_removed = some existing_key;
      priority = lookup existing_key dirs;
      not_found = none;
    },
    erase existing_key dirs,
  )

  unfoldable pub cmd_priority_remove :
      Process → String → Dict String Number → PriorityRemoveOutput × Dict String Number
  cmd_priority_remove env path [] = (not_removed "No priority directories configured", [])
  cmd_priority_remove env path (entry ∷ dirs) =
      remove_key (resolved env path) (entry ∷ dirs)
        (find_matching_path_key env (entry ∷ dirs) (resolved env path))

  -- An entry of `validation`
  pub record Validation : Type 0 where
    pub priority : Number
    pub valid : Bool
    pub error : Option String

  -- `MonitorPriorityShowOutput`
  pub record PriorityShowOutput : Type 0 where
    pub priority_directories : Dict String Number
    pub count : ℕ
    pub validation : Dict String Validation

  module _ (env : Process) (wks_home : FilePath) where
    abbrev validation_of : Bool × List String → Number → Validation
    validation_of (allowed, trace) priority = record {
      priority = priority;
      valid = allowed;
      error = if allowed then none else some (last_or "Excluded by rules" trace);
    }

    -- The loop; the keys of the dictionary are distinct, so each entry is a new one.
    unfoldable pub validate_dirs : FilterConfig → Dict String Number → Dict String Validation
    validate_dirs cfg [] = []
    validate_dirs cfg ((path, priority) ∷ dirs) =
        (path, validation_of (explain_path env wks_home cfg (normalize_path env path)) priority)
        ∷ validate_dirs cfg dirs

    unfoldable pub cmd_priority_show : FilterConfig → Dict String Number → PriorityShowOutput
    cmd_priority_show cfg dirs = record {
      priority_directories = dirs;
      count = length dirs;
      validation = validate_dirs cfg dirs;
    }

    -- `MonitorCheckOutput`, with `result_obj.result`; a decision is its symbol and its message.
    pub record CheckOutput : Type 0 where
      pub success : Bool
      pub message : String
      pub path : String
      pub is_monitored : Bool
      pub reason : String
      pub decisions : List (String × String)
      pub priority : Option Number

    module _ (show : Number → String) (lower unquote : String → String) where
      unfoldable pub symbol_of : String → String
      symbol_of message =
          if starts_with (lower message) "excluded"
          then "✗"
          else if has_part (lower message) "override" || starts_with (lower message) "included"
          then "✓"
          else "•"

      abbrev pub existence : Bool → FilePath → String × String
      existence path_exists path =
          if path_exists
          then ("✓", "Path exists: " <> to_string path)
          else ("⚠", "Path does not exist (checking as if it did): " <> to_string path)

      abbrev pub trace_decisions : List String → List (String × String)
      trace_decisions = map (λ message. (symbol_of message, message))

      -- From the verdict of the rules on; `decisions` are the ones up to it.
      abbrev pub check_result :
          FilePath → Bool → List String → List (String × String) → Number → CheckOutput
      check_result path false trace decisions priority = record {
        success = false;
        message = "Path is not monitored";
        path = to_string path;
        is_monitored = false;
        reason = last_or "Excluded by monitor rules" trace;
        decisions = decisions;
        priority = none;
      }
      check_result path true trace decisions priority = record {
        success = true;
        message = "Path is monitored with priority " <> show priority;
        path = to_string path;
        is_monitored = true;
        reason = "Would be monitored";
        decisions = decisions ++ ("✓", "Priority calculated: " <> show priority) ∷ [];
        priority = some priority;
      }

      abbrev pub check_path :
          FilterConfig
          → Dict String Number
          → PriorityWeights F
          → (FilePath → Bool)
          → FilePath
          → CheckOutput
      check_path cfg dirs weights exists path =
          let (allowed, trace) = explain_path env wks_home cfg path in
          check_result path allowed trace (existence (exists path) path ∷ trace_decisions trace)
            (calculate_priority F lower env path dirs weights)

      -- `exists` is `path.exists()`; no path is the `ValueError` of `uri.path`.
      abbrev pub check_uri :
          FilterConfig
          → Dict String Number
          → PriorityWeights F
          → (FilePath → Bool)
          → String
          → Option FilePath
          → CheckOutput
      check_uri cfg dirs weights exists uri none =
          let error = "Cannot extract local path from non-file URI: " <> uri in
          record {
            success = false;
            message = error;
            path = uri;
            is_monitored = false;
            reason = error;
            decisions = [];
            priority = none;
          }
      check_uri cfg dirs weights exists uri (some path) = check_path cfg dirs weights exists path

      unfoldable pub cmd_check :
          FilterConfig
          → Dict String Number
          → PriorityWeights F
          → (FilePath → Bool)
          → String
          → CheckOutput
      cmd_check cfg dirs weights exists uri =
          check_uri cfg dirs weights exists uri (uri_path env unquote uri)

-- `MonitorFilterShowOutput`
pub record FilterShowOutput : Type 0 where
  pub success : Bool
  pub message : String
  pub errors : List String
  pub available_lists : List String
  pub list_name : Option String
  pub shown_items : List String
  pub count : ℕ

abbrev list_names : List String
list_names =
    "include_paths" ∷ "exclude_paths" ∷ "include_dirnames" ∷ "exclude_dirnames" ∷ "include_globs"
    ∷ "exclude_globs" ∷ []

abbrev no_items : Bool → String → List String → FilterShowOutput
no_items success message errors = record {
  success = success;
  message = message;
  errors = errors;
  available_lists = list_names;
  list_name = none;
  shown_items = [];
  count = 0;
}

module _ (repr : String → String) (text_of : ℕ → String) where
  -- `list_name` is empty or missing when no list is asked for.
  unfoldable pub cmd_filter_show : String → FilterConfig → FilterShowOutput
  cmd_filter_show list_name f =
      if is_empty list_name
      then no_items true "Available monitor lists" []
      else elim (filter_list_name list_name) [
        | none ↦
            let message = "Unknown list_name: " <> repr list_name in
            no_items false message (message ∷ [])
        | some list ↦ record {
          success = true;
          message =
              "Showing " <> (list_name <> (" (" <> (text_of (length (items list f)) <> " items)")));
          errors = [];
          available_lists = list_names;
          list_name = some list_name;
          shown_items = items list f;
          count = length (items list f);
        }
      ]
