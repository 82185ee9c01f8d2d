-- ===== src/Tests/Monitor.antt =====
-- Runs of wks/api/monitor, and its theorems at concrete input.
use wks.Common.{
  ℕ, String, ◌≡◌, refl, ◌↔◌, Bool, true, false, some, List, [], ◌∷◌, arith, string_eq, list_eq,
  nat_eq, ltb, leb, contains, ◌*◌, ◌/◌, ◌+◌,
}
use Prim.Native.Nat.{◌^◌}
use mathlib.Core.Bool.{false≢true}
use wks.Common.Text
use wks.Common.Dict.{Dict, lookup, insert}
use wks.Common.Float.{Float}
use wks.FilePath.{FilePath, Process, normalize_path, to_string, relative_to}
use wks.Monitor.Glob.{fnmatchcase, matches_glob}
use wks.Monitor.Roots.{evaluate_roots, evaluate_roots_iff, InsideRoots}
use wks.Monitor.Explain.{
  FilterConfig, explain_path, exclusion, override, excluded_parent, dirname_set, glob_list,
}
use wks.Monitor.Explain.Laws.{explain_path_iff, IsMonitored}
use wks.Monitor.Priority.{resolved_priority, search_ancestors, find_priority_dir}
use wks.Monitor.Priority.Nearest.{Outcome, find_priority_dir_lem}
use wks.Monitor.Filter.{
  filter_list_name, cmd_filter_add, cmd_filter_remove, validate_value, validate_dirname, add_value,
  find_item, comparable, has_wildcard, include_dirnames,
}
use wks.Monitor.Filter.Laws.{IsDisjoint, cmd_filter_add-IsDisjoint}
use wks.Monitor.Filter.Removal.{RemoveOutcome, cmd_filter_remove_lem}
use wks.Monitor.Filter.RoundTrip.{cmd_filter_remove-cmd_filter_add}

abbrev pub process : Process
process = record {
  home = "u" ∷ "home" ∷ [];
  cwd = "work" ∷ "u" ∷ "home" ∷ [];
  user_home = λ user. user ∷ "home" ∷ [];
}

abbrev pub rules : FilterConfig
rules = record {
  include_paths = "~/docs" ∷ [];
  exclude_paths = "/home/u/docs/private" ∷ [];
  include_dirnames = "keep" ∷ [];
  exclude_dirnames = " tmp " ∷ "" ∷ [];
  include_globs = [];
  exclude_globs = "*.log" ∷ "[!a-c]?z" ∷ [];
}

abbrev wks_home : FilePath
wks_home = ".wks" ∷ "u" ∷ "home" ∷ []

abbrev pub note : FilePath
note = "a.md" ∷ "docs" ∷ "u" ∷ "home" ∷ []

glob_runs :
    (fnmatchcase "/x/a.log" "*.log" ≡ true)
    × (fnmatchcase "dz" "[!a-c]?z" ≡ false)
    × (fnmatchcase "dzz" "[!a-c]?z" ≡ true)
    × (fnmatchcase "azz" "[!a-c]?z" ≡ false)
    × (fnmatchcase "[x" "[x" ≡ true)
unfolding fnmatchcase
glob_runs = (refl, refl, refl, refl, refl)

abbrev explain : FilePath → Bool × List String
explain = explain_path process wks_home rules

explain-note : explain note ≡ (true, "Included by root /home/u/docs" ∷ [])
unfolding explain_path exclusion override excluded_parent dirname_set glob_list evaluate_roots
    normalize_path to_string matches_glob string_eq list_eq Text.strip relative_to
explain-note = refl

explain_tmp : explain ("a" ∷ "keep" ∷ "tmp" ∷ "docs" ∷ "u" ∷ "home" ∷ []) ≡ (
  true,
  "Included by root /home/u/docs" ∷ "Parent dir 'tmp' excluded" ∷ "Parent dir 'keep' override" ∷ [],
)
unfolding explain_path exclusion override excluded_parent dirname_set glob_list evaluate_roots
    normalize_path to_string matches_glob string_eq list_eq Text.strip relative_to
explain_tmp = refl

abbrev docs_root : List FilePath
docs_root = ("docs" ∷ "u" ∷ "home" ∷ []) ∷ []

evaluate_roots_iff_example :
    ((evaluate_roots note docs_root []).0 ≡ true) ↔ InsideRoots docs_root [] note
evaluate_roots_iff_example = evaluate_roots_iff docs_root [] note

explain_path_iff_example : ((explain note).0 ≡ true) ↔ IsMonitored process rules note wks_home
explain_path_iff_example = explain_path_iff process wks_home rules note

-- Natural numbers stand in for floats.
abbrev pub whole : Float
whole = record {
  Number = ℕ;
  zero = 0;
  one = 1;
  hundred = 100;
  add = ◌+◌;
  mul = ◌*◌;
  div = ◌/◌;
  of_ratio = ◌/◌;
  round = λ places x. x;
  pow = ◌^◌;
  lt = ltb;
  le = leb;
}

abbrev dirs : Dict String ℕ
dirs = ("~", 5) ∷ ("~/docs", 7) ∷ []

nearest_runs : find_priority_dir whole process note dirs ≡ (some ("docs" ∷ "u" ∷ "home" ∷ []), 7)
unfolding find_priority_dir resolved_priority search_ancestors normalize_path string_eq list_eq
    lookup insert
nearest_runs = refl

find_priority_dir_lem_example :
    Outcome whole
      (resolved_priority whole process dirs)
      note
      100
      (find_priority_dir whole process note dirs)
find_priority_dir_lem_example = find_priority_dir_lem whole process note dirs

abbrev quote : String → String
quote text = text

keep_only : (d : String) → contains ("keep" ∷ []) d ≡ true → d ≡ "keep"
keep_only d h = ground arith

rules-IsDisjoint : IsDisjoint rules
unfolding string_eq
rules-IsDisjoint d inc exc = false≢true (rw (keep_only d inc) at exc)

abbrev added : FilterConfig
added = (cmd_filter_add quote process "include_dirnames" " src " rules).1

cmd_filter_add-IsDisjoint_example : IsDisjoint added
cmd_filter_add-IsDisjoint_example =
    cmd_filter_add-IsDisjoint quote process "include_dirnames" " src " rules rules-IsDisjoint

cmd_filter_remove_lem_example :
    RemoveOutcome process
      (some include_dirnames)
      "keep"
      rules
      (cmd_filter_remove quote process "include_dirnames" "keep" rules)
unfolding filter_list_name string_eq
cmd_filter_remove_lem_example = cmd_filter_remove_lem process quote "include_dirnames" "keep" rules

add_runs : (cmd_filter_add quote process "include_dirnames" " src " rules).0.success ≡ true
unfolding cmd_filter_add filter_list_name validate_value validate_dirname add_value find_item
    comparable has_wildcard string_eq Text.strip Text.has_char
add_runs = refl

cmd_filter_remove-cmd_filter_add_example :
    ((cmd_filter_remove quote process "include_dirnames" " src " added).1 ≡ rules)
    × ((cmd_filter_remove quote process "include_dirnames" " src " added).0.success ≡ true)
unfolding filter_list_name string_eq
cmd_filter_remove-cmd_filter_add_example =
    cmd_filter_remove-cmd_filter_add quote process "include_dirnames" " src " rules refl refl
      add_runs
