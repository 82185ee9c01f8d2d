-- ===== src/Monitor/Sync/Laws.antt =====
-- The sync against a map from addresses to nodes, its counters, and the limit of the database
-- (wks/api/monitor/_sync_uri.py and _enforce_monitor_db_limit.py).
use wks.Common.{
  ℕ, ◌+◌, ◌-◌, ◌≤◌, ◌<◌, ◌⊎◌, String, ◌≡◌, refl, Option, none, some, List, [], ◌∷◌, ◌==◌, string_eq,
  nat_eq, arith, if◌then◌else◌, length, leb, count_if, drop_if, Answer, answer, raised, ap, ◌∙◌,
  sym, Bool-cases, inl, inr, length-append,
}
use wks.Common.Float.{Float}
use wks.Database.{Collection, IsLawful, upsert_first}
use wks.FilePath.{FilePath, Process}
use wks.Monitor.Explain.{explain_path}
use wks.Monitor.Sync.{
  FileSystem, FileStat, SyncCounts, no_counts, Node, NodeDoc, node, vertex, meta, has_uri, is_below,
  is_meta, is_counted, SyncConfig, enforce_limit, drop_extras, local, Decision, excluded,
  low_priority, failed, to_store, decide, decide_stat, carry_out, sync_files, sync_existing,
}

module _ (F : Float) where
  -- The node that a search for the address finds.
  unfoldable pub find_node : String → List (NodeDoc F) → Option (Node F)
  find_node uri [] = none
  find_node uri (node n ∷ ds) = if uri == n.local_uri then some n else find_node uri ds
  find_node uri (vertex v ∷ ds) = find_node uri ds
  find_node uri (meta t ∷ ds) = find_node uri ds

  find_node-drop_if :
      (uri gone : String) (ds : List (NodeDoc F))
      → find_node uri (drop_if (has_uri F gone) ds)
        ≡ (if uri == gone then none else find_node uri ds)
  unfolding find_node
  find_node-drop_if uri gone [] = ground arith
  find_node-drop_if uri gone (node n ∷ ds) = ground (arith, find_node-drop_if uri gone ds)
  find_node-drop_if uri gone (vertex v ∷ ds) = find_node-drop_if uri gone ds
  find_node-drop_if uri gone (meta t ∷ ds) = find_node-drop_if uri gone ds

  find_node-upsert_first :
      (uri : String) (n : Node F) (ds : List (NodeDoc F))
      → find_node uri (upsert_first (has_uri F n.local_uri) (λ d. node n) (node n) ds)
        ≡ (if uri == n.local_uri then some n else find_node uri ds)
  unfolding find_node upsert_first
  find_node-upsert_first uri n [] = refl
  find_node-upsert_first uri n (node m ∷ ds) = ground (arith, find_node-upsert_first uri n ds)
  find_node-upsert_first uri n (vertex v ∷ ds) = find_node-upsert_first uri n ds
  find_node-upsert_first uri n (meta t ∷ ds) = find_node-upsert_first uri n ds

  -- Storing the time of a sync adds no document that counts.
  count_if-upsert_meta :
      (now : String) (ds : List (NodeDoc F))
      → count_if (is_counted F) (upsert_first (is_meta F) (λ d. meta now) (meta now) ds)
        ≡ count_if (is_counted F) ds
  unfolding upsert_first
  count_if-upsert_meta now [] = refl
  count_if-upsert_meta now (node n ∷ ds) = omega (arith, count_if-upsert_meta now ds)
  count_if-upsert_meta now (vertex v ∷ ds) = omega (arith, count_if-upsert_meta now ds)
  count_if-upsert_meta now (meta t ∷ ds) = refl

  module _ (C : Collection (NodeDoc F)) (L : IsLawful C) where
    drop_extras-le :
        (max_docs : ℕ) (s : C.State)
        → 0 < max_docs
        → count_if (is_counted F) (C.all (drop_extras F C max_docs s)) ≤ max_docs
    unfolding drop_extras
    drop_extras-le max_docs s h =
        let count : ℕ = count_if (is_counted F) (C.all s) in
        ground (
          arith,
          L.length-find_first s (is_counted F) (count - max_docs),
          L.count_if-delete_ids s (is_counted F) (count - max_docs),
        )

    module _ (env : Process) (wks_home : FilePath) (hostname : String)
        (lower unquote : String → String) (text_of : ℕ → String) (fs : FileSystem)
        (cfg : SyncConfig F) where
      abbrev uri_of : FilePath → String
      uri_of = local F C env wks_home hostname lower unquote text_of fs cfg

      abbrev decision : FilePath → Decision F C env wks_home hostname lower unquote text_of fs cfg
      decision = decide F C env wks_home hostname lower unquote text_of fs cfg

      abbrev run : List FilePath → C.State × SyncCounts → C.State × SyncCounts
      run = sync_files F C env wks_home hostname lower unquote text_of fs cfg

      -- The abstract view of the database: which node an address has.
      abbrev pub NodeMap : Type 0
      NodeMap = String → Option (Node F)

      -- What a decision does to the map.
      abbrev pub apply_decision :
          String
          → Decision F C env wks_home hostname lower unquote text_of fs cfg
          → NodeMap
          → NodeMap
      apply_decision gone excluded m uri = if uri == gone then none else m uri
      apply_decision kept low_priority m uri = m uri
      apply_decision kept (failed e) m uri = m uri
      apply_decision stored (to_store n) m uri = if uri == stored then some n else m uri

      abbrev pub apply_files : List FilePath → NodeMap → NodeMap
      apply_files [] m = m
      apply_files (path ∷ paths) m =
          apply_files paths (apply_decision (uri_of path) (decision path) m)

      -- The database shows the map.
      abbrev pub Shows : C.State → NodeMap → Type 0
      Shows s m = (uri : String) → find_node uri (C.all s) ≡ m uri

      -- The address in a decision, or the other one.
      abbrev uri_in :
          String → Decision F C env wks_home hostname lower unquote text_of fs cfg → String
      uri_in uri (to_store n) = n.local_uri
      uri_in uri excluded = uri
      uri_in uri low_priority = uri
      uri_in uri (failed e) = uri

      uri_in-decide_stat :
          (path : FilePath) (found : Answer FileStat)
          → uri_in
              (uri_of path)
              (decide_stat F C env wks_home hostname lower unquote text_of fs cfg path found)
            ≡ uri_of path
      uri_in-decide_stat path (raised e) = refl
      uri_in-decide_stat path (answer stat) = ground arith

      uri_in-decide : (path : FilePath) → uri_in (uri_of path) (decision path) ≡ uri_of path
      unfolding decide
      uri_in-decide path = elim (Bool-cases ((explain_path env wks_home cfg.filter path).0)) [
        | inl h ↦ rw h (uri_in-decide_stat path (fs.read_stat path))
        | inr h ↦ rw h refl
      ]

      store-Shows :
          (uri : String) (n : Node F) (s : C.State) (m : NodeMap)
          → uri ≡ n.local_uri
          → Shows s m
          → Shows
              (C.upsert s (has_uri F uri) (λ d. node n) (node n))
              (apply_decision uri (to_store n) m)
      store-Shows uri n s m e h v =
          rw (L.all-upsert s (has_uri F uri) (λ d. node n) (node n))
            (rw e (rw (find_node-upsert_first v n (C.all s)) (rw (h v) refl)))

      carry_out-Shows :
          (path : FilePath) (d : Decision F C env wks_home hostname lower unquote text_of fs cfg)
          → (s : C.State) (c : SyncCounts) (m : NodeMap) → decision path ≡ d
          → Shows s m
          → Shows
              (carry_out F C env wks_home hostname lower unquote text_of fs cfg
                (uri_of path)
                d
                (s, c)).0
              (apply_decision (uri_of path) d m)
      carry_out-Shows path excluded s c m e h = λ uri.
          rw (L.all-delete_many s (has_uri F (uri_of path)))
            (rw (find_node-drop_if uri (uri_of path) (C.all s)) (rw (h uri) refl))
      carry_out-Shows path low_priority s c m e h = h
      carry_out-Shows path (failed m') s c m e h = h
      carry_out-Shows path (to_store n) s c m e h =
          store-Shows (uri_of path) n s m (sym (uri_in-decide path) ∙ ap (uri_in (uri_of path)) e) h

      -- The loop over the files refines the map: where the database shows a map before, it shows
      -- afterwards the map in which, file by file, an excluded file lost its node, a file to store got
      -- its new node, and any other file kept what it had.
      pub sync_files-Shows :
          (paths : List FilePath) (s : C.State) (c : SyncCounts) (m : NodeMap)
          → Shows s m
          → Shows (run paths (s, c)).0 (apply_files paths m)
      unfolding sync_files
      sync_files-Shows [] s c m h = h
      sync_files-Shows (path ∷ paths) s c m h =
          sync_files-Shows paths
            (carry_out F C env wks_home hostname lower unquote text_of fs cfg (uri_of path)
              (decision path) (s, c)).0
            (carry_out F C env wks_home hostname lower unquote text_of fs cfg (uri_of path)
              (decision path) (s, c)).1
            (apply_decision (uri_of path) (decision path) m)
            (carry_out-Shows path (decision path) s c m refl h)

      -- Every file is either synced or skipped, and every error is a skipped file.
      IsCounted : ℕ → SyncCounts → SyncCounts → Type 0
      IsCounted n c c' =
          (c'.files_synced + c'.files_skipped ≡ c.files_synced + c.files_skipped + n)
          × (length c'.errors + c.files_skipped ≤ length c.errors + c'.files_skipped)

      carry_out-IsCounted :
          (path : FilePath) (d : Decision F C env wks_home hostname lower unquote text_of fs cfg)
          → (s : C.State) (c : SyncCounts)
          → IsCounted 1 c
              (carry_out F C env wks_home hostname lower unquote text_of fs cfg
                (uri_of path)
                d
                (s, c)).1
      unfolding IsCounted
      carry_out-IsCounted path excluded s c = (omega arith, omega arith)
      carry_out-IsCounted path low_priority s c = (omega arith, omega arith)
      carry_out-IsCounted path (failed e) s c =
          (omega arith, omega (arith, length-append c.errors (e ∷ [])))
      carry_out-IsCounted path (to_store n) s c = (omega arith, omega arith)

      sync_files-IsCounted :
          (paths : List FilePath) (s : C.State) (c : SyncCounts)
          → IsCounted (length paths) c (run paths (s, c)).1
      unfolding sync_files IsCounted
      sync_files-IsCounted [] s c = (omega arith, omega arith)
      sync_files-IsCounted (path ∷ paths) s c =
          let next : C.State × SyncCounts =
            carry_out F C env wks_home hostname lower unquote text_of fs cfg (uri_of path)
              (decision path) (s, c) in
          let (one, errs) = carry_out-IsCounted path (decision path) s c in
          let (more, errs') = sync_files-IsCounted paths next.0 next.1 in
          (omega (arith, one, more), omega (arith, errs, errs'))

      -- A sync of a path that exists counts every file of it once, as synced or as skipped; reports no
      -- more errors than it skipped files; and leaves no more documents than the limit allows, where
      -- there is a limit.
      pub sync_existing_lem :
          (now : String) (paths : List FilePath) (s : C.State)
          → ((sync_existing F C env wks_home hostname lower unquote text_of fs cfg now paths
                  s).0.files_synced
                + (sync_existing F C env wks_home hostname lower unquote text_of fs cfg now paths
                    s).0.files_skipped
              ≡ length paths)
            × (length
                  (sync_existing F C env wks_home hostname lower unquote text_of fs cfg now paths
                    s).0.errors
                ≤ (sync_existing F C env wks_home hostname lower unquote text_of fs cfg now paths
                    s).0.files_skipped)
            × ((cfg.max_documents ≡ 0)
                ⊎ (count_if (is_counted F) (
                      C.all
                        (sync_existing F C env wks_home hostname lower unquote text_of fs cfg now
                          paths s).1)
                    ≤ cfg.max_documents))
      unfolding sync_existing enforce_limit IsCounted
      sync_existing_lem now paths s =
          let (counted, errs) = sync_files-IsCounted paths s no_counts in
          let trimmed : C.State =
            enforce_limit F C cfg.max_documents cfg.min_priority (run paths (s, no_counts)).0 in
          (
            omega (arith, counted),
            omega (arith, errs),
            elim (Bool-cases (leb cfg.max_documents 0)) [
              | inl h ↦ inl (ground (arith, h))
              | inr h ↦ inr (
                  rw (L.all-upsert trimmed (is_meta F) (λ d. meta now) (meta now)) (
                    rw (count_if-upsert_meta now (C.all trimmed)) (
                      drop_extras-le cfg.max_documents
                        (if F.lt F.zero cfg.min_priority
                          then C.delete_many (run paths (s, no_counts)).0
                              (is_below F cfg.min_priority)
                          else (run paths (s, no_counts)).0)
                        (ground (arith, h)))))
            ],
          )
