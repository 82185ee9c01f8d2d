-- ===== src/Monitor/Prune/Laws.antt =====
-- The nodes after the pruning (wks/api/monitor/prune.py).
use wks.Common.{
  All-map, ◌==◌, ℕ, suc, ◌+◌, String, ◌≡◌, refl, Bool, true, false, Option, none, some, List, [],
  ◌∷◌, ◌++◌, string_eq, arith, if◌then◌else◌, contains, drop_if, All, All-drop_if, Answer, answer,
  raised, Answer-cases, ◌⊎◌, Bool-cases, inl, inr, Option-cases, ap, ◌∙◌, sym, append-nil,
  append_assoc, is_some, count_if, keep_if, map, subst,
}
use wks.Database.{Collection, IsLawful}
use wks.FilePath.{FilePath, Process}
use wks.Common.Text.{drop_chars, starts_with, is_empty}
use wks.Uri.{uri_path, is_file}
use wks.Monitor.Prune.{
  is_foreign, before_slash, NodeEntry, NodeVerdict, keeps, removes, warns, crashes, NodeScan,
  no_scan, judge, scan_verdict, scan_node, scan_nodes, prune,
}

module _ (env : Process) (unquote : String → String) (hostname : String)
    (exists : FilePath → Answer Bool) where
  abbrev says_remove : NodeVerdict → Bool
  says_remove removes = true
  says_remove keeps = false
  says_remove (warns w) = false
  says_remove crashes = false

  abbrev judged_stale : Option String → Bool
  judged_stale none = false
  judged_stale (some uri) = says_remove (judge env unquote hostname exists uri)

  -- A node with an address of another host, or of a file that does not exist.
  abbrev is_stale : NodeEntry → Bool
  is_stale d = judged_stale d.local_uri

  abbrev says_crash : NodeVerdict → Bool
  says_crash crashes = true
  says_crash keeps = false
  says_crash removes = false
  says_crash (warns w) = false

  abbrev judged_crash : Option String → Bool
  judged_crash none = false
  judged_crash (some uri) = says_crash (judge env unquote hostname exists uri)

  -- The file has no address, or one of this host or of no host, and it exists, as far as the file
  -- system says.
  abbrev pub Remains : Option String → Type 0
  Remains none = Unit
  Remains (some uri) =
      (path : FilePath) × (uri_path env unquote uri ≡ some path)
      × ((before_slash (drop_chars 7 uri) ≡ "") ⊎ (before_slash (drop_chars 7 uri) ≡ hostname))
      × ((exists path ≡ answer true) ⊎ ((e : String) × (exists path ≡ raised e)))

  -- The node has an address of another host, or of a file that does not exist.
  abbrev pub Goes : Option String → Type 0
  Goes none = ⊥
  Goes (some uri) =
      ((starts_with uri "file://" ≡ true)
        × (is_empty (before_slash (drop_chars 7 uri)) ≡ false)
        × ((before_slash (drop_chars 7 uri) == hostname) ≡ false))
      ⊎ ((path : FilePath) × (uri_path env unquote uri ≡ some path) × (exists path ≡ answer false))

  other_host :
      (uri : String)
      → is_foreign env unquote hostname exists uri ≡ true
      → (starts_with uri "file://" ≡ true)
        × (is_empty (before_slash (drop_chars 7 uri)) ≡ false)
        × ((before_slash (drop_chars 7 uri) == hostname) ≡ false)
  unfolding is_foreign
  other_host uri f = (ground (arith, f), ground (arith, f), ground (arith, f))

  judged-Goes : (uri : Option String) → judged_stale uri ≡ true → Goes uri
  unfolding judge
  judged-Goes none r = absurd (ground arith)
  judged-Goes (some uri) r = elim (Bool-cases (is_foreign env unquote hostname exists uri)) [
    | inl f ↦ inl (other_host uri f)
    | inr f ↦ elim (Option-cases (uri_path env unquote uri)) [
      | inl n ↦ absurd (ground arith)
      | inr (path, p) ↦ elim (Answer-cases (exists path)) [
        | inl (true, e) ↦ absurd (ground arith)
        | inl (false, e) ↦ inr (path, p, e)
        | inr (message, e) ↦ absurd (ground arith)
      ]
    ]
  ]

  own_host :
      (uri : String) (path : FilePath)
      → uri_path env unquote uri ≡ some path
      → is_foreign env unquote hostname exists uri ≡ false
      → (before_slash (drop_chars 7 uri) ≡ "") ⊎ (before_slash (drop_chars 7 uri) ≡ hostname)
  unfolding uri_path is_file is_foreign
  own_host uri path p f = ground (arith, p, f)

  judge-Remains :
      (uri : String)
      → says_remove (judge env unquote hostname exists uri) ≡ false
      → says_crash (judge env unquote hostname exists uri) ≡ false
      → Remains (some uri)
  unfolding judge
  judge-Remains uri r c = elim (Bool-cases (is_foreign env unquote hostname exists uri)) [
    | inl f ↦ absurd (ground arith)
    | inr f ↦ elim (Option-cases (uri_path env unquote uri)) [
      | inl n ↦ absurd (ground arith)
      | inr (path, p) ↦ elim (Answer-cases (exists path)) [
        | inl (true, e) ↦ (path, p, own_host uri path p f, inl e)
        | inl (false, e) ↦ absurd (ground arith)
        | inr (message, e) ↦ (path, p, own_host uri path p f, inr (message, e))
      ]
    ]
  ]

  judged-Remains :
      (uri : Option String) → judged_stale uri ≡ false → judged_crash uri ≡ false → Remains uri
  judged-Remains none r c = tt
  judged-Remains (some uri) r c = judge-Remains uri r c

  scan_verdict-sane :
      (id : String) (v : NodeVerdict) (r r' : NodeScan)
      → scan_verdict env unquote hostname exists id v r ≡ some r'
      → says_crash v ≡ false
  scan_verdict-sane id keeps r r' e = refl
  scan_verdict-sane id removes r r' e = refl
  scan_verdict-sane id (warns w) r r' e = refl
  scan_verdict-sane id crashes r r' e = absurd (ground arith)

  scan_node-sane :
      (id : String) (uri : Option String) (r r' : NodeScan)
      → scan_node env unquote hostname exists id uri r ≡ some r'
      → judged_crash uri ≡ false
  scan_node-sane id none r r' e = refl
  scan_node-sane id (some uri) r r' e =
      scan_verdict-sane id (judge env unquote hostname exists uri) r r' e

  -- A scan that ends has met no address of which the path can not be told.
  scan_nodes-sane :
      (ds : List NodeEntry) (r r' : NodeScan)
      → scan_nodes env unquote hostname exists ds r ≡ some r'
      → All (λ d. judged_crash d.local_uri ≡ false) ds
  unfolding scan_nodes
  scan_nodes-sane [] r r' e = tt
  scan_nodes-sane (d ∷ ds) r r' e =
      elim (Option-cases (scan_node env unquote hostname exists d.id d.local_uri r)) [
        | inl h ↦ absurd (ground arith)
        | inr (q, h) ↦
            (scan_node-sane d.id d.local_uri r q h, scan_nodes-sane ds q r' (ground arith))
      ]

  All-Remains :
      (ds : List NodeEntry)
      → All (λ d. is_stale d ≡ false) ds
      → All (λ d. judged_crash d.local_uri ≡ false) ds
      → All (λ d. Remains d.local_uri) ds
  All-Remains [] h c = tt
  All-Remains (d ∷ ds) (h, hs) (c, cs) = (judged-Remains d.local_uri h c, All-Remains ds hs cs)

  abbrev ids_of : Option NodeScan → List String
  ids_of none = []
  ids_of (some r) = r.ids_to_remove

  abbrev checked_of : Option NodeScan → ℕ
  checked_of none = 0
  checked_of (some r) = r.nodes_checked

  scan_verdict-ids :
      (id : String) (v : NodeVerdict) (r r' : NodeScan)
      → scan_verdict env unquote hostname exists id v r ≡ some r'
      → (r'.ids_to_remove ≡ r.ids_to_remove ++ (if says_remove v then id ∷ [] else []))
        × (r'.nodes_checked ≡ suc r.nodes_checked)
  scan_verdict-ids id keeps r r' e =
      (sym (ap ids_of e) ∙ sym (append-nil r.ids_to_remove), sym (ap checked_of e))
  scan_verdict-ids id removes r r' e = (sym (ap ids_of e), sym (ap checked_of e))
  scan_verdict-ids id (warns w) r r' e =
      (sym (ap ids_of e) ∙ sym (append-nil r.ids_to_remove), sym (ap checked_of e))
  scan_verdict-ids id crashes r r' e = absurd (ground arith)

  scan_node-ids :
      (id : String) (uri : Option String) (r r' : NodeScan)
      → scan_node env unquote hostname exists id uri r ≡ some r'
      → (r'.ids_to_remove ≡ r.ids_to_remove ++ (if judged_stale uri then id ∷ [] else []))
        × (r'.nodes_checked ≡ r.nodes_checked + (if is_some uri then 1 else 0))
  scan_node-ids id none r r' e =
      (sym (ap ids_of e) ∙ sym (append-nil r.ids_to_remove), omega (arith, ap checked_of e))
  scan_node-ids id (some uri) r r' e =
      let (ids, checked) = scan_verdict-ids id (judge env unquote hostname exists uri) r r' e in
      (ids, omega (arith, checked))

  abbrev Scanned : List NodeEntry → NodeScan → NodeScan → Type 0
  Scanned ds r r' =
      (r'.ids_to_remove ≡ r.ids_to_remove ++ map (λ (d : NodeEntry). d.id) (keep_if is_stale ds))
      × (r'.nodes_checked ≡ r.nodes_checked + count_if (λ d. is_some d.local_uri) ds)

  Scanned-cons :
      (d : NodeEntry) (ds : List NodeEntry) (r q r' : NodeScan) (stale : Bool)
      → is_stale d ≡ stale
      → q.ids_to_remove ≡ r.ids_to_remove ++ (if stale then d.id ∷ [] else [])
      → q.nodes_checked ≡ r.nodes_checked + (if is_some d.local_uri then 1 else 0)
      → Scanned ds q r'
      → Scanned (d ∷ ds) r r'
  Scanned-cons d ds r q r' true e ids checked (ids', checked') = (
    rw (e, ids', ids)
        (append_assoc r.ids_to_remove (d.id ∷ [])
          (map (λ (x : NodeEntry). x.id) (keep_if is_stale ds))),
    omega (arith, checked, checked'),
  )
  Scanned-cons d ds r q r' false e ids checked (ids', checked') = (
    rw (e, ids', ids)
        (ap (λ xs. xs ++ map (λ (x : NodeEntry). x.id) (keep_if is_stale ds))
          (append-nil r.ids_to_remove)),
    omega (arith, checked, checked'),
  )

  scan_nodes-Scanned :
      (ds : List NodeEntry) (r r' : NodeScan)
      → scan_nodes env unquote hostname exists ds r ≡ some r'
      → Scanned ds r r'
  unfolding scan_nodes
  scan_nodes-Scanned [] r r' e =
      (sym (ap ids_of e) ∙ sym (append-nil r.ids_to_remove), omega (arith, ap checked_of e))
  scan_nodes-Scanned (d ∷ ds) r r' e =
      elim (Option-cases (scan_node env unquote hostname exists d.id d.local_uri r)) [
        | inl h ↦ absurd (ground arith)
        | inr (q, h) ↦
            let (ids, checked) = scan_node-ids d.id d.local_uri r q h in
            Scanned-cons d ds r q r' (is_stale d) refl ids checked
              (scan_nodes-Scanned ds q r' (ground arith))
      ]

  abbrev stale_ids : List NodeEntry → List String
  stale_ids ds = map (λ (d : NodeEntry). d.id) (keep_if is_stale ds)

  stale_ids-source :
      (ds : List NodeEntry) (id : String)
      → contains (stale_ids ds) id ≡ true
      → (d : NodeEntry) × (d.id ≡ id) × Goes d.local_uri
  stale_ids-source [] id h = absurd (ground arith)
  stale_ids-source (d ∷ ds) id h = elim (Bool-cases (is_stale d)) [
    | inr e ↦ stale_ids-source ds id (ground (arith, e, h))
    | inl e ↦ elim (string_eq.dec id d.id) [
      | yes same ↦ (d, sym same, judged-Goes d.local_uri e)
      | no n ↦ stale_ids-source ds id (ground (arith, e, h, n))
    ]
  ]

  abbrev keep_rest : List String → List NodeEntry → List NodeEntry
  keep_rest ids ds = drop_if (λ (d : NodeEntry). contains ids d.id) ds

  abbrev entry_ids : List NodeEntry → List String
  entry_ids = map (λ (d : NodeEntry). d.id)

  abbrev StaysOrListed : List String → List NodeEntry → NodeEntry → Type 0
  StaysOrListed ids kept d = (contains (entry_ids kept) d.id ≡ true) ⊎ (contains ids d.id ≡ true)

  StaysOrListed-cons :
      (ids : List String) (x : NodeEntry) (kept : List NodeEntry) (d : NodeEntry)
      → StaysOrListed ids kept d
      → StaysOrListed ids (x ∷ kept) d
  StaysOrListed-cons ids x kept d (inl h) = inl (ground (arith, h))
  StaysOrListed-cons ids x kept d (inr h) = inr h

  keep_rest-gone :
      (ids : List String) (d : NodeEntry) (ds : List NodeEntry)
      → contains ids d.id ≡ true
      → keep_rest ids ds ≡ keep_rest ids (d ∷ ds)
  keep_rest-gone ids d ds h = ground (arith, h)

  keep_rest-kept :
      (ids : List String) (d : NodeEntry) (ds : List NodeEntry)
      → contains ids d.id ≡ false
      → d ∷ keep_rest ids ds ≡ keep_rest ids (d ∷ ds)
  keep_rest-kept ids d ds h = ground (arith, h)

  keep_rest-StaysOrListed :
      (ids : List String) (ds : List NodeEntry) → All (StaysOrListed ids (keep_rest ids ds)) ds
  keep_rest-StaysOrListed ids [] = tt
  keep_rest-StaysOrListed ids (d ∷ ds) =
      let rest = keep_rest-StaysOrListed ids ds in
      elim (Bool-cases (contains ids d.id)) [
        | inl gone ↦
            subst (λ kept. All (StaysOrListed ids kept) (d ∷ ds)) (keep_rest-gone ids d ds gone)
              (inr gone, rest)
        | inr stays ↦
            subst (λ kept. All (StaysOrListed ids kept) (d ∷ ds)) (keep_rest-kept ids d ds stays)
              (
                inl (ground arith),
                All-map (StaysOrListed ids (keep_rest ids ds))
                    (StaysOrListed ids (d ∷ keep_rest ids ds)) ds
                    (StaysOrListed-cons ids d (keep_rest ids ds)) rest,
              )
      ]

  -- A node with the id of this one is left, or a node with its id had to go.
  abbrev pub Stays : List NodeEntry → NodeEntry → Type 0
  Stays kept d =
      (contains (entry_ids kept) d.id ≡ true) ⊎ ((x : NodeEntry) × (x.id ≡ d.id) × Goes x.local_uri)

  keep_rest-Stays : (ds : List NodeEntry) → All (Stays (keep_rest (stale_ids ds) ds)) ds
  keep_rest-Stays ds =
      All-map (StaysOrListed (stale_ids ds) (keep_rest (stale_ids ds) ds))
        (Stays (keep_rest (stale_ids ds) ds)) ds
        (λ d h. elim h [ inl k ↦ inl k | inr l ↦ inr (stale_ids-source ds d.id l) ])
        (keep_rest-StaysOrListed (stale_ids ds) ds)

  -- Without the documents of these ids, no stale one is left.
  fresh_without :
      (ids : List String) (ds : List NodeEntry)
      → ((x : String) → contains (stale_ids ds) x ≡ true → contains ids x ≡ true)
      → All (λ d. is_stale d ≡ false) (drop_if (λ (d : NodeEntry). contains ids d.id) ds)
  fresh_without ids [] sub = tt
  fresh_without ids (d ∷ ds) sub = elim (Bool-cases (is_stale d)) [
    | inl e ↦
        let rest : (x : String) → contains (stale_ids ds) x ≡ true → contains ids x ≡ true =
          λ x h. sub x (ground (arith, e, h)) in
        let gone : contains ids d.id ≡ true = sub d.id (ground (arith, e)) in
        rw gone (fresh_without ids ds rest)
    | inr e ↦
        let rest : (x : String) → contains (stale_ids ds) x ≡ true → contains ids x ≡ true =
          λ x h. sub x (ground (arith, e, h)) in
        elim (Bool-cases (contains ids d.id)) [
          | inl gone ↦ rw gone (fresh_without ids ds rest)
          | inr stays ↦ rw stays (e, fresh_without ids ds rest)
        ]
  ]

  module _ (C : Collection NodeEntry) (L : IsLawful C) where
    abbrev state_of : C.State → Option (NodeScan × C.State) → C.State
    state_of s none = s
    state_of s (some (r, s')) = s'

    abbrev scan_of : Option (NodeScan × C.State) → NodeScan
    scan_of none = no_scan
    scan_of (some (r, s')) = r

    pruned :
        (s s' : C.State) (r q : NodeScan)
        → Scanned (C.all s) no_scan q
        → All (λ d. judged_crash d.local_uri ≡ false) (C.all s)
        → ◌≡◌ {A = Option (NodeScan × C.State)}
            (some (q, C.delete_many s (λ d. contains q.ids_to_remove d.id)))
            (some (r, s'))
        → (r.nodes_checked ≡ count_if (λ d. is_some d.local_uri) (C.all s))
          × All (λ d. Remains d.local_uri) (C.all s')
          × All (Stays (C.all s')) (C.all s)
    pruned s s' r q (ids, checked) sane e =
        let gone : NodeEntry → Bool = λ d. contains q.ids_to_remove d.id in
        (
          sym (ap (λ o. (scan_of o).nodes_checked) e) ∙ (checked ∙ omega arith),
          subst (λ t. All (λ d. Remains d.local_uri) (C.all t)) (ap (state_of s) e)
              (rw (L.all-delete_many s gone) (
                All-Remains (drop_if gone (C.all s))
                  (fresh_without q.ids_to_remove (C.all s) (λ x h. rw ids h))
                  (All-drop_if (λ d. judged_crash d.local_uri ≡ false) gone (C.all s) sane))),
          subst (λ t. All (Stays (C.all t)) (C.all s)) (ap (state_of s) e)
              (rw (L.all-delete_many s gone) (
                subst (λ found. All (Stays (keep_rest found (C.all s))) (C.all s)) (sym ids)
                  (keep_rest-Stays (C.all s)))),
        )

    -- If the pruning ends, it has counted every node with an address. Every node that is left has no
    -- address, or one of this host, or of no host, whose file exists or makes the file system fail. And
    -- the id of every node is left, unless a node with this id has an address of another host or of a
    -- file that does not exist.
    pub prune-clean :
        (s s' : C.State) (r : NodeScan)
        → prune env unquote hostname exists C s ≡ some (r, s')
        → (r.nodes_checked ≡ count_if (λ d. is_some d.local_uri) (C.all s))
          × All (λ d. Remains d.local_uri) (C.all s')
          × All (Stays (C.all s')) (C.all s)
    unfolding prune
    prune-clean s s' r e =
        elim (Option-cases (scan_nodes env unquote hostname exists (C.all s) no_scan)) [
          | inl h ↦ absurd (ground arith)
          | inr (q, h) ↦
              pruned s s' r q (scan_nodes-Scanned (C.all s) no_scan q h)
                (scan_nodes-sane (C.all s) no_scan q h) (ground arith)
        ]
