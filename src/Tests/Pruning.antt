-- ===== src/Tests/Pruning.antt =====
-- A run of the pruning of the cache, and its theorem at concrete input.
use wks.Common.{
  String, ◌≡◌, refl, Bool, true, Option, none, some, List, [], ◌∷◌, All, Answer, answer, string_eq,
  nat_eq, contains, ◌⊎◌, ◌==◌, if◌then◌else◌,
}
use wks.Common.Text
use wks.Database.{Collection}
use wks.Database.Listed.{listed, listed-IsLawful}
use wks.FilePath.{FilePath, to_string}
use wks.Transform.Prune.{TransformDoc, remove_orphans, unlink_warnings, prune}
use wks.Transform.Prune.Laws.{IsNamed, HasOutput, IsOrphan, prune-IsNamed}
use wks.Tests.Monitor.{process}

abbrev store : Collection TransformDoc
store = listed TransformDoc

abbrev records : List TransformDoc
records =
    record { id = "1"; checksum = "c1"; cache_uri = "file://h/home/u/cache/c1.md" }
    ∷ record { id = "2"; checksum = "c2"; cache_uri = "" }
    ∷ []

abbrev same : String → String
same text = text

abbrev present : FilePath → Answer Bool
present path = answer true

abbrev locked : String → Option String
locked file = if file == "c4.md" then some "busy" else none

abbrev home_cache : FilePath
home_cache = "cache" ∷ "u" ∷ "home" ∷ []

abbrev cache_dir : List String
cache_dir = "c1.md" ∷ "c3.md" ∷ "c4.md" ∷ []

orphan_runs :
    remove_orphans process same present locked home_cache ("c3" ∷ "c4" ∷ []) cache_dir
    ≡ ("c1.md" ∷ "c4.md" ∷ [], "Failed to delete orphaned file /home/u/cache/c4.md: busy" ∷ [])
unfolding remove_orphans unlink_warnings to_string Text.join Text.starts_with string_eq
orphan_runs = refl

abbrev after : List String × List TransformDoc
after = (prune process same present locked home_cache store cache_dir records).1

prune-IsNamed_example :
    All
      (λ (d : TransformDoc). HasOutput process same present locked home_cache cache_dir d.cache_uri)
      after.1
    × All (IsNamed process same present locked home_cache ("c1" ∷ "c2" ∷ [])) after.0
    × ((contains after.0 "c1.md" ≡ contains cache_dir "c1.md")
        ⊎ IsOrphan process same present locked home_cache ("c1" ∷ "c2" ∷ []) cache_dir "c1.md")
prune-IsNamed_example =
    prune-IsNamed process same present locked home_cache store (listed-IsLawful TransformDoc)
      cache_dir records "c1.md"
