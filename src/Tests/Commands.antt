-- ===== src/Tests/Commands.antt =====
-- Runs of the monitor's other commands, and their theorems at concrete input.
use wks.Common.{ℕ, String, ◌≡◌, refl, Bool, true, some, [], ◌∷◌, string_eq, list_eq, nat_eq}
use wks.Common.Text
use wks.Common.Dict.{Dict, keys}
use wks.FilePath.{FilePath, normalize_path, to_string}
use wks.Tests.Monitor.{process, rules, note, whole}
use wks.Uri.{uri_path, is_file, from_slash}
use wks.Monitor.Explain.{explain_path}
use wks.Monitor.Priority.{PriorityWeights}
use wks.Monitor.Commands.{cmd_priority_add, find_key}
use wks.Monitor.Commands.Laws.{
  cmd_priority_add-IsStored, IsStored, IsUnambiguous, cmd_check_lem, check, Reports,
}

abbrev digit : ℕ → String
digit n = "0"

abbrev dirs : Dict String ℕ
dirs = ("~/docs", 7) ∷ ("/home/u/src", 5) ∷ []

dirs-IsUnambiguous : IsUnambiguous process (keys dirs)
unfolding find_key keys normalize_path to_string string_eq
dirs-IsUnambiguous = (refl, (refl, tt))

cmd_priority_add-IsStored_example :
    IsStored process whole digit 9 dirs
      (cmd_priority_add whole digit process "~/src" 9 dirs).1
      (cmd_priority_add whole digit process "~/src" 9 dirs).0.path_stored
cmd_priority_add-IsStored_example =
    cmd_priority_add-IsStored process whole digit "~/src" 9 dirs dirs-IsUnambiguous

abbrev wks_home : FilePath
wks_home = ".wks" ∷ "u" ∷ "home" ∷ []

abbrev weights : PriorityWeights whole
weights = record {
  depth_multiplier = 1;
  underscore_multiplier = 2;
  only_underscore_multiplier = 3;
  extension_weights = [];
}

abbrev same : String → String
same text = text

abbrev exists : FilePath → Bool
exists path = true

address : uri_path process same "file://host/home/u/docs/a.md" ≡ some note
unfolding uri_path is_file from_slash Text.drop_chars Text.starts_with normalize_path nat_eq
address = refl

cmd_check_lem_example :
    Reports process whole wks_home digit same same rules dirs weights exists note
      (explain_path process wks_home rules note).0
      (explain_path process wks_home rules note).1
      (check process whole wks_home digit same same rules dirs weights exists
        "file://host/home/u/docs/a.md")
cmd_check_lem_example =
    cmd_check_lem process whole wks_home digit same same rules dirs weights exists
      "file://host/home/u/docs/a.md" note address
