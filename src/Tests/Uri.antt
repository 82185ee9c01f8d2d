-- ===== src/Tests/Uri.antt =====
-- Runs of wks/api/config/URI.py, and its theorem at concrete input.
use wks.Common.{String, ◌≡◌, refl, some, List, [], ◌∷◌, string_eq, list_eq, nat_eq}
use wks.Common.Text
use wks.FilePath.{normalize_path}
use wks.Tests.Monitor.{process}
use wks.Uri.{make_uri, from_any, uri_path, is_file, from_slash}
use wks.Uri.Laws.{from_any_idempotent}

path_runs :
    uri_path process (λ text. text) "file://host/home/u/a.md" ≡ some ("a.md" ∷ "u" ∷ "home" ∷ [])
unfolding uri_path is_file from_slash Text.drop_chars Text.starts_with normalize_path nat_eq
path_runs = refl

abbrev vault : List String
vault = "v" ∷ "u" ∷ "home" ∷ []

from_any_idempotent_example :
    (make_uri (from_any process "host" (some vault) "~/v/n.md")
      ≡ some (from_any process "host" (some vault) "~/v/n.md"))
    × (from_any process "host" (some vault) (from_any process "host" (some vault) "~/v/n.md")
        ≡ from_any process "host" (some vault) "~/v/n.md")
from_any_idempotent_example =
    from_any_idempotent process "host" (some vault) (some vault) "~/v/n.md"
