-- ===== src/Tests/Sync.antt =====
-- Runs of the sync, of the pruning of nodes and edges and of moves, and their theorems at concrete input.
use wks.Common.{
  ℕ, ◌+◌, ◌≤◌, String, ◌≡◌, refl, ◌⊎◌, Bool, true, false, Option, none, some, List, [], ◌∷◌,
  string_eq, list_eq, nat_eq, answer, Answer, ◌==◌, length, count_if, is_some, All, map, drop_if,
  contains, if◌then◌else◌, ◌||◌, ◌&&◌, leb,
}
use wks.Common.Text
use wks.Database.{Collection, IsLawful}
use wks.Database.Listed.{listed, listed-IsLawful}
use wks.FilePath.{FilePath}
use wks.Uri.{uri_path, from_any, is_file}
use wks.Monitor.Sync.{
  FileSystem, NodeDoc, vertex, meta, is_counted, SyncConfig, no_counts, sync_files, sync_existing,
}
use wks.Monitor.Sync.Laws.{find_node, apply_files, sync_files-Shows, sync_existing_lem}
use wks.Monitor.Prune.{
  NodeEntry, NodeScan, prune as prune_nodes, scan_nodes, judge, is_foreign, before_slash,
}
use wks.Monitor.Prune.Laws.{Remains, Stays, prune-clean}
use wks.Link.Prune.{Edge, scan_edges, prune as prune_edges}
use wks.Link.Prune.Laws.{IsLive, prune-IsLive, prune-to_remote_uri}
use wks.Move.{Surroundings, MoveRequest, move_document}
use wks.Move.Laws.{Outcome, move_document-Outcome}
use wks.Move.Filename.{is_valid_filename, is_digit, read_codes, step}
use wks.Move.Filename.Laws.{is_valid_filename-codes}
use wks.Tests.Monitor.{process, rules, note, whole}

abbrev docs : Collection (NodeDoc whole)
docs = listed (NodeDoc whole)

abbrev docs_lawful : IsLawful docs
docs_lawful = listed-IsLawful (NodeDoc whole)

abbrev wks_home : FilePath
wks_home = ".wks" ∷ "u" ∷ "home" ∷ []

abbrev same : String → String
same text = text

abbrev number : ℕ → String
number n = "n"

abbrev disk : FileSystem
disk = record {
  exists = λ path. true;
  files = λ path recursive. path ∷ [];
  read_stat = λ path. answer (record { checksum = "c"; size = 3; timestamp = "t" });
}

abbrev settings : SyncConfig whole
settings = record {
  filter = rules;
  dirs = ("~", 5) ∷ [];
  weights = record {
    depth_multiplier = 1;
    underscore_multiplier = 1;
    only_underscore_multiplier = 1;
    extension_weights = [];
  };
  min_priority = 1;
  max_documents = 2;
  mappings = [];
}

abbrev old_docs : List (NodeDoc whole)
old_docs = vertex "v" ∷ vertex "w" ∷ meta "0" ∷ []

sync_files-Shows_example :
    find_node whole "file://h/home/u/docs/a.md" (
      docs.all
        (sync_files whole docs process wks_home "h" same same number disk settings
          (note ∷ [])
          (old_docs, no_counts)).0)
    ≡ apply_files whole docs docs_lawful process wks_home "h" same same number disk settings
        (note ∷ [])
        (λ uri. none)
        "file://h/home/u/docs/a.md"
unfolding find_node
sync_files-Shows_example =
    sync_files-Shows whole docs docs_lawful process wks_home "h" same same number disk settings
      (note ∷ []) old_docs no_counts (λ uri. none) (λ uri. refl) "file://h/home/u/docs/a.md"

sync_existing_lem_example :
    ((sync_existing whole docs process wks_home "h" same same number disk settings "1"
          (note ∷ [])
          old_docs).0.files_synced
        + (sync_existing whole docs process wks_home "h" same same number disk settings "1"
            (note ∷ [])
            old_docs).0.files_skipped
      ≡ 1)
    × (length
          (sync_existing whole docs process wks_home "h" same same number disk settings "1"
            (note ∷ [])
            old_docs).0.errors
        ≤ (sync_existing whole docs process wks_home "h" same same number disk settings "1"
            (note ∷ [])
            old_docs).0.files_skipped)
    × ((settings.max_documents ≡ 0)
        ⊎ (count_if (is_counted whole) (
              docs.all
                (sync_existing whole docs process wks_home "h" same same number disk settings "1"
                  (note ∷ [])
                  old_docs).1)
            ≤ settings.max_documents))
sync_existing_lem_example =
    sync_existing_lem whole docs docs_lawful process wks_home "h" same same number disk settings "1"
      (note ∷ []) old_docs

abbrev nodes : Collection NodeEntry
nodes = listed NodeEntry

abbrev entries : List NodeEntry
entries =
    record { id = "1"; local_uri = some "file://other/a.md" }
    ∷ record { id = "2"; local_uri = some "file://h/a.md" }
    ∷ record { id = "3"; local_uri = none }
    ∷ []

abbrev present : FilePath → Answer Bool
present path = answer true

abbrev scanned : NodeScan
scanned = record { nodes_checked = 2; ids_to_remove = "1" ∷ []; warnings = [] }

abbrev kept_entries : List NodeEntry
kept_entries =
    record { id = "2"; local_uri = some "file://h/a.md" }
    ∷ record { id = "3"; local_uri = none }
    ∷ []

prune_runs : prune_nodes process same "h" present nodes entries ≡ some (scanned, kept_entries)
unfolding prune_nodes scan_nodes judge is_foreign Text.starts_with before_slash Text.drop_chars
    string_eq uri_path is_file
prune_runs = refl

prune-clean_example :
    (scanned.nodes_checked ≡ count_if (λ d. is_some d.local_uri) entries)
    × All (λ d. Remains process same "h" present d.local_uri) kept_entries
    × All (Stays process same "h" present kept_entries) entries
prune-clean_example =
    prune-clean process same "h" present nodes (listed-IsLawful NodeEntry) entries kept_entries
      scanned prune_runs

abbrev edge_store : Collection Edge
edge_store = listed Edge

abbrev edge : String → Option String → Option String → Edge
edge id to_local to_remote = record {
  id = id;
  from_local_uri = some "file://h/a.md";
  to_local_uri = to_local;
  to_remote_uri = to_remote;
  from_remote_uri = some "http://gone";
}

abbrev edges : List Edge
edges =
    edge "1" (some "file://h/b.md") (some "http://gone")
    ∷ edge "2" (some "file://h/a.md") none
    ∷ edge "3" none (some "http://here")
    ∷ []

abbrev head : String → Option ℕ
head uri = if uri == "http://gone" then some 404 else some 200

abbrev absent : FilePath → Bool
absent path = false

abbrev known : List String
known = "file://h/a.md" ∷ []

prune-IsLive_example :
    All
      (IsLive process same absent head true true known)
      (edge_store.all (prune_edges process same absent head true true known edge_store edges).1)
prune-IsLive_example =
    prune-IsLive process same absent head true true known edge_store (listed-IsLawful Edge) edges

prune-to_remote_uri_example :
    map
      (λ (d : Edge). d.to_remote_uri)
      (edge_store.all (prune_edges process same absent head true true known edge_store edges).1)
    ≡ map
        (λ (d : Edge). d.to_remote_uri)
        (drop_if
          (λ (d : Edge).
            contains (scan_edges process same absent head true true known edges).to_delete d.id)
          edges)
prune-to_remote_uri_example =
    prune-to_remote_uri process same absent head true true known edge_store (listed-IsLawful Edge)
      edges

-- The files are the paths that exist.
-- The digits of ASCII and the full-width ones.
abbrev wide_digit : ℕ → Bool
wide_digit c = is_digit c || (leb 65296 c && leb c 65305)

abbrev surroundings : Surroundings (List FilePath) ℕ
surroundings = record {
  is_decimal = wide_digit;
  file_system = λ paths. record {
    exists = contains paths;
    files = λ path recursive. path ∷ [];
    read_stat = λ path. answer (record { checksum = "c"; size = 3; timestamp = "t" });
  };
  git_root = λ paths path. none;
  move_into = λ source dest paths. (none, dest ∷ drop_if (λ p. p == source) paths);
  update_link_for_move = λ source dest v. (answer none, v);
  rewrite_wiki_links = λ a b v. (none, v);
  update_edges_for_move = λ source dest a b v. (none, v);
}

abbrev move : MoveRequest
move = record { source = "/home/u/docs/a.md"; dest = "/home/u/docs/2026-Notes.md" }

move_document-Outcome_example :
    Outcome whole docs surroundings process wks_home "h" same same number [] settings
      (uri_path process same (from_any process "h" none "/home/u/docs/a.md"))
      (uri_path process same (from_any process "h" none "/home/u/docs/2026-Notes.md"))
      (note ∷ [], old_docs, 0)
      (move_document whole docs surroundings process wks_home "h" same same number [] settings "1"
        move
        (note ∷ [], old_docs, 0))
move_document-Outcome_example =
    move_document-Outcome whole docs surroundings process wks_home "h" same same number [] settings
      "1" move (note ∷ [], old_docs, 0)

filename_runs :
    (is_valid_filename wide_digit "2026-My_Document.pdf" ≡ true)
    × (is_valid_filename wide_digit "2026_02-Notes" ≡ true)
    × (is_valid_filename wide_digit "2026_02_29-Notes.txt\n" ≡ true)
    × (is_valid_filename wide_digit "2026-notes" ≡ false)
    × (is_valid_filename wide_digit "26-Notes" ≡ false)
    × (is_valid_filename wide_digit "２０２６-Notes" ≡ true)
unfolding is_valid_filename Text.codes read_codes step nat_eq
filename_runs = (refl, refl, refl, refl, refl, refl)

is_valid_filename-codes_example : is_valid_filename wide_digit "2026-My Document.pdf" ≡ false
unfolding Text.codes nat_eq
is_valid_filename-codes_example =
    is_valid_filename-codes wide_digit "2026-My Document.pdf" 32 refl refl refl
