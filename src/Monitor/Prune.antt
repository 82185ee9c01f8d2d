-- ===== src/Monitor/Prune.antt =====
-- `prune` of wks/api/monitor/prune.py: the nodes of files that are gone or on another host. The
-- database is a collection of records with ids; `exists` may raise an `OSError`.
pub mod Laws
use wks.Common.{
  ℕ, zero, suc, String, ◌<>◌, Bool, true, false, not, ◌&&◌, Option, none, some, List, [], ◌∷◌, ◌++◌,
  ◌==◌, string_eq, nat_eq, if◌then◌else◌, length, contains, map, Answer, answer, raised,
}
use Prim.Native.Char.{code}
use wks.Common.Text.{starts_with, drop_chars, is_empty}
use wks.Database.{Collection}
use wks.FilePath.{FilePath, Process}
use wks.Uri.{uri_path}

-- A document, as far as the pruning reads it.
pub record NodeEntry : Type 0 where
  pub id : String
  pub local_uri : Option String

-- `text.split("/", 1)[0]`
unfoldable pub before_slash : String → String
unfolding nat_eq
before_slash String.[] = String.[]
before_slash (String.◌∷◌ c s) =
    let rest = before_slash s in if code c == b'/' then String.[] else String.◌∷◌ c rest

-- What the loop decides of a node.
pub data NodeVerdict : Type 0 where
  keeps removes : NodeVerdict
  warns : String → NodeVerdict
  -- the `ValueError` of an address that is no file, which nothing catches
  crashes : NodeVerdict

-- What the loop collects.
pub record NodeScan : Type 0 where
  pub nodes_checked : ℕ
  pub ids_to_remove : List String
  pub warnings : List String

abbrev pub no_scan : NodeScan
no_scan = record { nodes_checked = 0; ids_to_remove = []; warnings = [] }

module _ (env : Process) (unquote : String → String) (hostname : String)
    (exists : FilePath → Answer Bool) where
  -- `uri_hostname and uri_hostname != current_hostname`
  unfoldable pub is_foreign : String → Bool
  is_foreign uri =
      let uri_hostname = before_slash (drop_chars 7 uri) in
      starts_with uri "file://" && not (is_empty uri_hostname) && not (uri_hostname == hostname)

  abbrev pub judge_answer : String → Answer Bool → NodeVerdict
  judge_answer uri (raised e) = warns ("Filesystem error for " <> (uri <> (": " <> e)))
  judge_answer uri (answer true) = keeps
  judge_answer uri (answer false) = removes

  abbrev pub judge_path : String → Option FilePath → NodeVerdict
  judge_path uri none = crashes
  judge_path uri (some path) = judge_answer uri (exists path)

  unfoldable pub judge : String → NodeVerdict
  judge uri = if is_foreign uri then removes else judge_path uri (uri_path env unquote uri)

  -- A node with an address; no result is the `ValueError`.
  abbrev pub scan_verdict : String → NodeVerdict → NodeScan → Option NodeScan
  scan_verdict id keeps r = some (record r { nodes_checked = suc r.nodes_checked })
  scan_verdict id removes r = some (record {
    nodes_checked = suc r.nodes_checked;
    ids_to_remove = r.ids_to_remove ++ id ∷ [];
    warnings = r.warnings;
  })
  scan_verdict id (warns w) r = some (record {
    nodes_checked = suc r.nodes_checked;
    ids_to_remove = r.ids_to_remove;
    warnings = r.warnings ++ w ∷ [];
  })
  scan_verdict id crashes r = none

  abbrev pub scan_node : String → Option String → NodeScan → Option NodeScan
  scan_node id none r = some r
  scan_node id (some uri) r = scan_verdict id (judge uri) r

  unfoldable pub scan_nodes : List NodeEntry → NodeScan → Option NodeScan
  scan_nodes [] r = some r
  scan_nodes (d ∷ ds) r = elim (scan_node d.id d.local_uri r) [
    | none ↦ none
    | some r' ↦ scan_nodes ds r'
  ]

  module _ (C : Collection NodeEntry) where
    -- The scan and the database afterwards.
    unfoldable pub prune : C.State → Option (NodeScan × C.State)
    prune s = elim (scan_nodes (C.all s) no_scan) [
      | none ↦ none
      | some r ↦ some (r, C.delete_many s (λ d. contains r.ids_to_remove d.id))
    ]
