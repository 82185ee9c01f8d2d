-- ===== src/Link/Prune.antt =====
-- `prune` of wks/api/link/prune.py: edges whose source or target is gone. The database is a collection
-- of records with ids; `exists` asks the file system, and `head` is the status of a request, or none
-- where it raises.
pub mod Laws
use wks.Common.{
  ℕ, ◌-◌, String, Bool, true, false, not, ◌&&◌, ◌||◌, Option, none, some, List, [], ◌∷◌, ◌==◌,
  string_eq, nat_eq, if◌then◌else◌, length, contains, drop_if,
}
use wks.Common.Text.{is_empty}
use wks.Database.{Collection}
use wks.FilePath.{FilePath, Process}
use wks.Uri.{make_uri, uri_path}

-- An edge, as far as the pruning reads it.
pub record Edge : Type 0 where
  pub id : String
  pub from_local_uri : Option String
  pub to_local_uri : Option String
  pub to_remote_uri : Option String
  pub from_remote_uri : Option String

-- `if text:`
abbrev pub is_given : Option String → Bool
is_given none = false
is_given (some text) = not (is_empty text)

-- `doc.get(key) in valid_nodes`
abbrev pub is_among : List String → Option String → Bool
is_among valid_nodes none = false
is_among valid_nodes (some uri) = contains valid_nodes uri

-- `response.status_code in (404, 410)`
abbrev pub is_gone : Option ℕ → Bool
is_gone none = false
is_gone (some status_code) = status_code == 404 || status_code == 410

-- What the loop decides of an edge.
pub record EdgeVerdict : Type 0 where
  pub deletes : Bool
  pub unsets_to : Bool
  pub unsets_from : Bool

-- The lists that the loop fills.
pub record EdgeScan : Type 0 where
  pub to_delete : List String
  pub to_unset_to_remote : List String
  pub to_unset_from_remote : List String

-- What is returned, besides the empty list of warnings.
pub record EdgePruning : Type 0 where
  pub deleted_count : ℕ
  pub checked_count : ℕ

abbrev pub push_if : Bool → String → List String → List String
push_if b id ids = if b then id ∷ ids else ids

module _ (env : Process) (unquote : String → String) (exists : FilePath → Bool)
    (head : String → Option ℕ) (internet_available remote : Bool) (valid_nodes : List String) where
  -- `URI(to_uri).path.exists()`, where no path is the `ValueError`
  abbrev pub file_exists : Option String → Bool
  file_exists none = false
  file_exists (some uri) = elim (uri_path env unquote uri) [
    | none ↦ false
    | some path ↦ exists path
  ]

  -- `local_target_broken`
  abbrev pub is_broken : Option String → Bool
  is_broken none = true
  is_broken (some to_uri) =
      is_empty to_uri || (not (contains valid_nodes to_uri) && not (file_exists (make_uri to_uri)))

  -- The answer to a request for an address that is given.
  abbrev pub is_dead : Option String → Bool
  is_dead none = false
  is_dead (some uri) = not (is_empty uri) && is_gone (head uri)

  -- The body of the loop.
  unfoldable pub judge_edge : Edge → EdgeVerdict
  judge_edge doc =
      let orphan = not (is_among valid_nodes doc.from_local_uri) in
      let broken = is_broken doc.to_local_uri in
      let unsets_to =
        remote && not orphan && broken && internet_available && is_dead doc.to_remote_uri in
      record {
        deletes = orphan || (broken && (unsets_to || not (is_given doc.to_remote_uri)));
        unsets_to = unsets_to;
        unsets_from = remote && internet_available && is_dead doc.from_remote_uri;
      }

  unfoldable pub scan_edges : List Edge → EdgeScan
  scan_edges [] = record { to_delete = []; to_unset_to_remote = []; to_unset_from_remote = [] }
  scan_edges (doc ∷ docs) =
      let verdict = judge_edge doc in
      let rest = scan_edges docs in
      record {
        to_delete = push_if verdict.deletes doc.id rest.to_delete;
        to_unset_to_remote = push_if verdict.unsets_to doc.id rest.to_unset_to_remote;
        to_unset_from_remote = push_if verdict.unsets_from doc.id rest.to_unset_from_remote;
      }

  module _ (C : Collection Edge) where
    open C use {State}

    abbrev pub unset_to : List String → State → State
    unset_to [] s = s
    unset_to (id ∷ ids) s =
        C.update_many s (λ d. contains (id ∷ ids) d.id) (λ d. record d { to_remote_uri = none })

    abbrev pub unset_from : List String → State → State
    unset_from [] s = s
    unset_from (id ∷ ids) s =
        C.update_many s (λ d. contains (id ∷ ids) d.id) (λ d. record d { from_remote_uri = none })

    abbrev pub delete_listed : List String → State → State
    delete_listed [] s = s
    delete_listed (id ∷ ids) s = C.delete_many s (λ d. contains (id ∷ ids) d.id)

    -- From the lists on.
    unfoldable pub carry_out : EdgeScan → State → State
    carry_out scan s = unset_from (drop_if (contains scan.to_delete) scan.to_unset_from_remote) (
        unset_to (drop_if (contains scan.to_delete) scan.to_unset_to_remote)
          (delete_listed scan.to_delete s))

    -- The result and the edges afterwards.
    unfoldable pub prune : State → EdgePruning × State
    prune s =
        let docs = C.all s in
        let s' = carry_out (scan_edges docs) s in
        (
          record {
            deleted_count =
                length docs - length (C.all (delete_listed (scan_edges docs).to_delete s));
            checked_count = length docs;
          },
          s',
        )
