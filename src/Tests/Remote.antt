-- ===== src/Tests/Remote.antt =====
-- A run of wks/api/monitor/resolve_remote_uri.py, and its theorem at concrete input.
use wks.Common.{String, ◌≡◌, refl, some, List, [], ◌∷◌, string_eq, list_eq, nat_eq}
use wks.Common.Text
use wks.FilePath.{normalize_path, relative_to}
use wks.Uri.{uri_path, is_file, from_slash, make_uri}
use wks.Monitor.Remote.{
  RemoteMapping, resolve_remote_uri, first_served, serve, with_slashes, without_slashes,
}
use wks.Monitor.Remote.Laws.{resolve_remote_uri_lem, RemoteOutcome}
use wks.Tests.Monitor.{process, note}

abbrev mappings : List RemoteMapping
mappings =
    record { local_path = "/srv"; remote_uri = "https://one/" }
    ∷ record { local_path = "~/docs"; remote_uri = "https://two/x//" }
    ∷ []

abbrev address : String
address = "file://host/home/u/docs/a.md"

abbrev same : String → String
same text = text

address_path : uri_path process same address ≡ some note
unfolding uri_path is_file from_slash Text.drop_chars Text.starts_with normalize_path nat_eq
address_path = refl

remote_runs : resolve_remote_uri process same address mappings ≡ some "https://two/x/a.md"
unfolding resolve_remote_uri first_served serve with_slashes without_slashes uri_path is_file
    from_slash make_uri relative_to Text.drop_chars Text.starts_with Text.has_part Text.join
    normalize_path nat_eq string_eq list_eq
remote_runs = refl

resolve_remote_uri_lem_example :
    RemoteOutcome process note mappings (resolve_remote_uri process same address mappings)
resolve_remote_uri_lem_example =
    resolve_remote_uri_lem process note same address mappings address_path
