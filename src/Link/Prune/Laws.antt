-- ===== src/Link/Prune/Laws.antt =====
-- The edges after the pruning (wks/api/link/prune.py).
use wks.Common.{
  ℕ, String, ◌≡◌, refl, Bool, true, false, not, ◌||◌, Option, none, some, List, [], ◌∷◌, string_eq,
  arith, if◌then◌else◌, contains, drop_if, All, All-map, Bool-cases, inl, inr, map, ap, ◌∙◌, sym,
  subst,
}
use wks.Database.{Collection, IsLawful}
use wks.FilePath.{FilePath, Process}
use wks.Uri.{make_uri, uri_path}
use wks.Common.Text.{is_empty, has_part}
use wks.Link.Prune.{
  Edge, EdgeVerdict, EdgeScan, is_given, is_among, is_broken, file_exists, push_if, judge_edge,
  scan_edges, carry_out, unset_to, unset_from, delete_listed, prune,
}

contains-push_if :
    (b : Bool) (id k : String) (ids : List String)
    → contains ids k ≡ true
    → contains (push_if b id ids) k ≡ true
contains-push_if b id k ids h = ground (arith, h)

drop_if-nil : (docs : List Edge) → drop_if (λ d. contains [] d.id) docs ≡ docs
drop_if-nil [] = refl
drop_if-nil (d ∷ docs) = ap (λ ds. d ∷ ds) (drop_if-nil docs)

module _ (env : Process) (unquote : String → String) (exists : FilePath → Bool)
    (head : String → Option ℕ) (internet_available remote : Bool) (valid_nodes : List String) where
  abbrev judge : Edge → EdgeVerdict
  judge = judge_edge env unquote exists head internet_available remote valid_nodes

  abbrev scan : List Edge → EdgeScan
  scan = scan_edges env unquote exists head internet_available remote valid_nodes

  -- How the addresses of a target reach something: a node, a file that exists, or a remote address.
  pub data Reaches (to_local to_remote : Option String) : Type 0 where
    by_node :
        (uri : String)
        → to_local ≡ some uri
        → contains valid_nodes uri ≡ true
        → Reaches to_local to_remote
    by_file :
        (uri : String) (path : FilePath)
        → to_local ≡ some uri
        → uri_path env unquote uri ≡ some path
        → exists path ≡ true
        → Reaches to_local to_remote
    by_remote :
        (uri : String) → to_remote ≡ some uri → is_empty uri ≡ false → Reaches to_local to_remote

  -- The source is a node, and something is reached.
  pub record IsLive (d : Edge) : Type 0 where
    pub from_uri : String
    pub from_is : d.from_local_uri ≡ some from_uri
    pub from_node : contains valid_nodes from_uri ≡ true
    pub reached : Reaches d.to_local_uri d.to_remote_uri

  among-some :
      (uri : Option String)
      → is_among valid_nodes uri ≡ true
      → (u : String) × (uri ≡ some u) × (contains valid_nodes u ≡ true)
  among-some none h = absurd (ground arith)
  among-some (some u) h = (u, refl, h)

  remote-some :
      (uri : Option String)
      → is_given uri ≡ true
      → (u : String) × (uri ≡ some u) × (is_empty u ≡ false)
  remote-some none h = absurd (ground arith)
  remote-some (some u) h = (u, refl, ground (arith, h))

  make_uri-some : (to_uri uri : String) → make_uri to_uri ≡ some uri → to_uri ≡ uri
  unfolding make_uri
  make_uri-some to_uri uri e = elim (Bool-cases (has_part to_uri "://")) [
    | inl h ↦ ground (arith, e, h)
    | inr h ↦ absurd (ground (arith, e, h))
  ]

  path-some :
      (uri : String) (path : Option FilePath)
      → (elim path [ none ↦ false | some p ↦ exists p ]) ≡ true
      → (p : FilePath) × (path ≡ some p) × (exists p ≡ true)
  path-some uri none h = absurd (ground arith)
  path-some uri (some p) h = (p, refl, h)

  file-some :
      (made : Option String)
      → file_exists env unquote exists head internet_available remote valid_nodes made ≡ true
      → (uri : String) × (path : FilePath) × (made ≡ some uri)
        × (uri_path env unquote uri ≡ some path)
        × (exists path ≡ true)
  file-some none h = absurd (ground arith)
  file-some (some uri) h =
      let (path, e, x) = path-some uri (uri_path env unquote uri) h in (uri, path, refl, e, x)

  unbroken-Reaches :
      (to_local to_remote : Option String)
      → is_broken env unquote exists head internet_available remote valid_nodes to_local ≡ false
      → Reaches to_local to_remote
  unbroken-Reaches none to_remote h = absurd (ground arith)
  unbroken-Reaches (some to_uri) to_remote h = elim (Bool-cases (contains valid_nodes to_uri)) [
    | inl n ↦ by_node to_uri refl n
    | inr n ↦
        let (uri, path, made, at, x) = file-some (make_uri to_uri) (ground (arith, h, n)) in
        by_file uri path (ap some (make_uri-some to_uri uri made)) at x
  ]

  abbrev IsListed : List String → Edge → Type 0
  IsListed ids d = (judge d).deletes ≡ true → contains ids d.id ≡ true

  scan-IsListed : (docs : List Edge) → All (IsListed (scan docs).to_delete) docs
  unfolding scan_edges
  scan-IsListed [] = tt
  scan-IsListed (doc ∷ docs) = (
    λ h. ground (arith, h),
    All-map (IsListed (scan docs).to_delete)
        (IsListed (push_if (judge doc).deletes doc.id (scan docs).to_delete)) docs
        (λ d f h. contains-push_if (judge doc).deletes doc.id d.id (scan docs).to_delete (f h))
        (scan-IsListed docs),
  )

  not_broken-Reaches :
      (d : Edge)
      → (not
            (is_broken env unquote exists head internet_available remote valid_nodes d.to_local_uri)
          || is_given d.to_remote_uri)
        ≡ true
      → Reaches d.to_local_uri d.to_remote_uri
  not_broken-Reaches d h =
      elim (Bool-cases
        (is_broken env unquote exists head internet_available remote valid_nodes d.to_local_uri)) [
          | inr b ↦ unbroken-Reaches d.to_local_uri d.to_remote_uri b
          | inl b ↦
              let (uri, e, given) = remote-some d.to_remote_uri (ground (arith, h, b)) in
              by_remote uri e given
        ]

  IsLive-unless : (d : Edge) → (judge d).deletes ≡ false → IsLive d
  unfolding judge_edge
  IsLive-unless d h =
      let (uri, e, node) = among-some d.from_local_uri (ground (arith, h)) in
      record {
        from_uri = uri;
        from_is = e;
        from_node = node;
        reached = not_broken-Reaches d (ground (arith, h));
      }

  IsLive-drop_if :
      (ids : List String) (docs : List Edge)
      → All (IsListed ids) docs
      → All IsLive (drop_if (λ d. contains ids d.id) docs)
  IsLive-drop_if ids [] h = tt
  IsLive-drop_if ids (doc ∷ docs) (h, hs) = elim (Bool-cases (contains ids doc.id)) [
    | inl e ↦ rw e (IsLive-drop_if ids docs hs)
    | inr e ↦ rw e (IsLive-unless doc (ground (arith, h, e)), IsLive-drop_if ids docs hs)
  ]

  IsLive-unset : (d : Edge) → IsLive d → IsLive (record d { from_remote_uri = none })
  IsLive-unset d k = record {
    from_uri = k.from_uri;
    from_is = k.from_is;
    from_node = k.from_node;
    reached = k.reached;
  }

  unsets-deletes : (d : Edge) → (judge d).unsets_to ≡ true → (judge d).deletes ≡ true
  unfolding judge_edge
  unsets-deletes d e = ground (arith, e)

  -- An address that is unset is one of an edge that goes.
  drop_if-scan :
      (ids : List String) (docs : List Edge)
      → All (IsListed ids) docs
      → drop_if (contains ids) (scan docs).to_unset_to_remote ≡ []
  unfolding scan_edges
  drop_if-scan ids [] h = refl
  drop_if-scan ids (doc ∷ docs) (h, hs) = elim (Bool-cases (judge doc).unsets_to) [
    | inr e ↦ rw e (drop_if-scan ids docs hs)
    | inl e ↦
        let k : contains ids doc.id ≡ true = h (unsets-deletes doc e) in
        rw e (rw k (drop_if-scan ids docs hs))
  ]

  module _ (C : Collection Edge) (L : IsLawful C) where
    open C use {State}

    abbrev unset_all : List String → List Edge → List Edge
    unset_all ids docs =
        map (λ d. if contains ids d.id then record d { from_remote_uri = none } else d) docs

    unset_from-IsLive :
        (ids : List String) (s : State)
        → All IsLive (C.all s)
        → All IsLive (
            C.all
              (unset_from env unquote exists head internet_available remote valid_nodes C ids s))
    unset_from-IsLive [] s h = h
    unset_from-IsLive (id ∷ ids) s h =
        subst (All IsLive) (sym (L.all-update_many s _ _)) (go (C.all s) h)
      where
        go : (docs : List Edge) → All IsLive docs → All IsLive (unset_all (id ∷ ids) docs)
        go [] h = tt
        go (d ∷ docs) (k, h) = elim (Bool-cases (contains (id ∷ ids) d.id)) [
          | inl e ↦ rw e (IsLive-unset d k, go docs h)
          | inr e ↦ rw e (k, go docs h)
        ]

    delete_listed-IsLive :
        (ids : List String) (s : State)
        → All (IsListed ids) (C.all s)
        → All IsLive (
            C.all
              (delete_listed env unquote exists head internet_available remote valid_nodes C ids s))
    delete_listed-IsLive [] s h =
        subst (All IsLive) (drop_if-nil (C.all s)) (IsLive-drop_if [] (C.all s) h)
    delete_listed-IsLive (id ∷ ids) s h =
        subst (All IsLive) (sym (L.all-delete_many s _)) (IsLive-drop_if (id ∷ ids) (C.all s) h)

    -- After the pruning each edge starts at a node, and leads to a node, to a file that exists or to a remote
    -- address.
    pub prune-IsLive :
        (s : State)
        → All IsLive
            (C.all (prune env unquote exists head internet_available remote valid_nodes C s).1)
    unfolding prune carry_out
    prune-IsLive s =
        let docs = C.all s in
        let ids = (scan docs).to_delete in
        unset_from-IsLive (drop_if (contains ids) (scan docs).to_unset_from_remote) _ (
          subst
            (λ x. All IsLive (
              C.all (
                unset_to env unquote exists head internet_available remote valid_nodes C x (
                  delete_listed env unquote exists head internet_available remote valid_nodes C ids
                    s))))
            (sym (drop_if-scan ids docs (scan-IsListed docs)))
            (delete_listed-IsLive ids s (scan-IsListed docs)))

    abbrev targets_of : List Edge → List (Option String)
    targets_of docs = map (λ d. d.to_remote_uri) docs

    targets-unset_from :
        (ids : List String) (s : State)
        → targets_of (
            C.all
              (unset_from env unquote exists head internet_available remote valid_nodes C ids s))
          ≡ targets_of (C.all s)
    targets-unset_from [] s = refl
    targets-unset_from (id ∷ ids) s = ap targets_of (L.all-update_many s _ _) ∙ go (C.all s)
      where
        go : (docs : List Edge) → targets_of (unset_all (id ∷ ids) docs) ≡ targets_of docs
        go [] = refl
        go (d ∷ docs) = elim (Bool-cases (contains (id ∷ ids) d.id)) [
          | inl e ↦ rw e (ap (λ ds. d.to_remote_uri ∷ ds) (go docs))
          | inr e ↦ rw e (ap (λ ds. d.to_remote_uri ∷ ds) (go docs))
        ]

    all-delete_listed :
        (ids : List String) (s : State)
        → C.all
            (delete_listed env unquote exists head internet_available remote valid_nodes C ids s)
          ≡ drop_if (λ d. contains ids d.id) (C.all s)
    all-delete_listed [] s = sym (drop_if-nil (C.all s))
    all-delete_listed (id ∷ ids) s = L.all-delete_many s _

    -- The remote address of a target is never unset: the edges that remain are those that are not listed for
    -- deletion, with the remote addresses that they had.
    pub prune-to_remote_uri :
        (s : State)
        → map
            (λ d. d.to_remote_uri)
            (C.all (prune env unquote exists head internet_available remote valid_nodes C s).1)
          ≡ map
              (λ d. d.to_remote_uri)
              (drop_if
                (λ d.
                  contains
                    (scan_edges env unquote exists head internet_available remote valid_nodes
                      (C.all s)).to_delete
                    d.id)
                (C.all s))
    unfolding prune carry_out
    prune-to_remote_uri s =
        let docs = C.all s in
        let ids = (scan docs).to_delete in
        targets-unset_from (drop_if (contains ids) (scan docs).to_unset_from_remote) _
        ∙ ap
            (λ x. targets_of (
              C.all (
                unset_to env unquote exists head internet_available remote valid_nodes C x (
                  delete_listed env unquote exists head internet_available remote valid_nodes C ids
                    s))))
            (drop_if-scan ids docs (scan-IsListed docs))
        ∙ ap targets_of (all-delete_listed ids s)
