-- ===== src/Transform/Prune/Laws.antt =====
-- The records and the files of the cache directory after the pruning (wks/api/transform/prune.py).
use wks.Common.{
  String, ◌<>◌, ◌≡◌, refl, Bool, true, false, not, ◌||◌, Option, List, [], ◌∷◌, map, string_eq,
  arith, contains, distinct, drop_if, is_some, Answer, All, All-map, Bool-cases, inl, inr, ◌⊎◌,
  answer, raised, some, list_eq, Option-cases, ap, ◌∙◌, sym, subst,
}
use wks.Common.Text.{starts_with, is_empty, has_part}
use wks.Uri.{make_uri, uri_path}
use wks.Database.{Collection, IsLawful}
use wks.FilePath.{FilePath, Process, stem}
use wks.Transform.Prune.{
  TransformDoc, exists_in, has_output, is_found, stale_records, orphaned_files, goes,
  remove_orphans, delete_stale, prune,
}

contains-distinct :
    (xs : List String) (x : String) → contains xs x ≡ true → contains (distinct xs) x ≡ true
contains-distinct [] x h = h
contains-distinct (y ∷ ys) x h = ground (arith, h, contains-distinct ys x)

contains-drop_if :
    (known xs : List String) (x : String)
    → contains xs x ≡ true
    → (contains known x || contains (drop_if (contains known) xs) x) ≡ true
contains-drop_if known [] x h = ground (arith, h)
contains-drop_if known (y ∷ ys) x h = ground (arith, h, contains-drop_if known ys x)

distinct-contains :
    (xs : List String) (x : String) → contains (distinct xs) x ≡ true → contains xs x ≡ true
distinct-contains [] x h = h
distinct-contains (y ∷ ys) x h = ground (arith, h, distinct-contains ys x)

drop_if-contains :
    (known xs : List String) (x : String)
    → contains (drop_if (contains known) xs) x ≡ true
    → (contains known x ≡ false) × (contains xs x ≡ true)
drop_if-contains known [] x h = absurd (ground arith)
drop_if-contains known (y ∷ ys) x h = elim (Bool-cases (contains known y)) [
  | inl k ↦
      let (unknown, there) = drop_if-contains known ys x (ground (arith, k, h)) in
      (unknown, ground (arith, there))
  | inr k ↦ elim (string_eq.dec x y) [
    | yes e ↦ (subst (λ z. contains known z ≡ false) (sym e) k, ground (arith, e))
    | no n ↦
        let (unknown, there) = drop_if-contains known ys x (ground (arith, k, h, n)) in
        (unknown, ground (arith, there))
  ]
]

contains-kept :
    (p : String → Bool) (x : String)
    → p x ≡ false
    → (xs : List String) → contains (drop_if p xs) x ≡ contains xs x
contains-kept p x h [] = refl
contains-kept p x h (y ∷ ys) = elim (string_eq.dec x y) [
  | yes e ↦ let stays : p y ≡ false = subst (λ z. p z ≡ false) e h in rw stays (ground (arith, e))
  | no n ↦ elim (Bool-cases (p y)) [
    | inl d ↦ rw d (ground (arith, n, contains-kept p x h ys))
    | inr d ↦ rw d (ground (arith, n, contains-kept p x h ys))
  ]
]

module _ (env : Process) (unquote : String → String) (elsewhere : FilePath → Answer Bool)
    (unlink : String → Option String) (directory : FilePath) where
  found_true :
      (found : Answer Bool)
      → is_found env unquote elsewhere unlink directory found ≡ true
      → found ≡ answer true
  found_true (answer true) h = refl
  found_true (answer false) h = absurd (ground arith)
  found_true (raised e) h = absurd (ground arith)

  exists_in-cases :
      (cache_dir : List String) (path : FilePath)
      → is_found env unquote elsewhere unlink directory
          (exists_in env unquote elsewhere unlink directory cache_dir path)
        ≡ true
      → ((file : String) × (path ≡ file ∷ directory) × (contains cache_dir file ≡ true))
        ⊎ ((¬ ((file : String) × (path ≡ file ∷ directory))) × (elsewhere path ≡ answer true))
  unfolding exists_in
  exists_in-cases cache_dir [] g =
      inr (λ (file, e). absurd (ground (arith, e)), found_true (elsewhere []) g)
  exists_in-cases cache_dir (file ∷ above) g = elim (list_eq.dec above directory) [
    | yes e ↦ inl (file, ap (λ d. file ∷ d) e, ground (arith, e, g))
    | no n ↦ inr (
      λ (other, e). n (ground (arith, e)),
      found_true (elsewhere (file ∷ above)) (ground (arith, n, g)),
    )
  ]

  abbrev drops : String → String → Bool
  drops = goes env unquote elsewhere unlink directory

  -- The file is matched by one of the orphans, and can be removed.
  abbrev drops_one : List String → String → Bool
  drops_one [] file = false
  drops_one (c ∷ cs) file = drops c file || drops_one cs file

  remove_orphans-drop_if :
      (orphans files : List String)
      → (remove_orphans env unquote elsewhere unlink directory orphans files).0
        ≡ drop_if (drops_one orphans) files
  unfolding remove_orphans
  remove_orphans-drop_if [] files = keeps_all files
    where
      keeps_all : (files : List String) → files ≡ drop_if (λ file. false) files
      keeps_all [] = refl
      keeps_all (f ∷ fs) = ap (λ gs. f ∷ gs) (keeps_all fs)
  remove_orphans-drop_if (c ∷ cs) files =
      remove_orphans-drop_if cs (drop_if (drops c) files) ∙ twice files
    where
      twice :
          (files : List String)
          → drop_if (drops_one cs) (drop_if (drops c) files) ≡ drop_if (drops_one (c ∷ cs)) files
      twice [] = refl
      twice (f ∷ fs) = elim (Bool-cases (drops c f)) [
        | inl d ↦ rw d (twice fs)
        | inr d ↦ rw d (elim (Bool-cases (drops_one cs f)) [
          | inl o ↦ rw o (twice fs)
          | inr o ↦ rw o (ap (λ gs. f ∷ gs) (twice fs))
        ])
      ]

  -- The stem of the file is a known checksum, or the file is not named after its stem, or it can not be removed.
  abbrev pub IsNamed : List String → String → Type 0
  IsNamed checksums file =
      (contains checksums (stem file)
        || not (starts_with file (stem file <> "."))
        || is_some (unlink file))
      ≡ true

  kept-IsNamed :
      (checksums orphans : List String) (file : String)
      → (contains checksums (stem file) || contains orphans (stem file)) ≡ true
      → drops_one orphans file ≡ false
      → IsNamed checksums file
  kept-IsNamed checksums [] file h d = ground (arith, h)
  kept-IsNamed checksums (c ∷ cs) file h d = elim (string_eq.dec (stem file) c) [
    | yes e ↦
        let kept : drops (stem file) file ≡ false =
          subst (λ x. drops x file ≡ false) (sym e) (ground (arith, d)) in
        ground (arith, kept)
    | no n ↦ kept-IsNamed checksums cs file (ground (arith, h, n)) (ground (arith, d))
  ]

  -- The address is that of a file of the cache directory, or of another path that exists.
  abbrev pub HasOutput : List String → String → Type 0
  HasOutput cache_dir cache_uri =
      (path : FilePath) × (uri_path env unquote cache_uri ≡ some path)
      × (((file : String) × (path ≡ file ∷ directory) × (contains cache_dir file ≡ true))
          ⊎ ((¬ ((file : String) × (path ≡ file ∷ directory))) × (elsewhere path ≡ answer true)))

  found-HasOutput :
      (cache_dir : List String) (cache_uri : String)
      → is_found env unquote elsewhere unlink directory
          (has_output env unquote elsewhere unlink directory cache_dir cache_uri)
        ≡ true
      → HasOutput cache_dir cache_uri
  unfolding has_output make_uri
  found-HasOutput cache_dir cache_uri h = elim (Bool-cases (is_empty cache_uri)) [
    | inl e ↦ absurd (ground arith)
    | inr e ↦ elim (Bool-cases (has_part cache_uri "://")) [
      | inr p ↦ absurd (ground arith)
      | inl p ↦ elim (Option-cases (uri_path env unquote cache_uri)) [
        | inl n ↦ absurd (ground arith)
        | inr (path, u) ↦ (path, u, there path (ground arith))
      ]
    ]
  ]
    where
      there :
          (path : FilePath)
          → is_found env unquote elsewhere unlink directory
              (exists_in env unquote elsewhere unlink directory cache_dir path)
            ≡ true
          → ((file : String) × (path ≡ file ∷ directory) × (contains cache_dir file ≡ true))
            ⊎ ((¬ ((file : String) × (path ≡ file ∷ directory))) × (elsewhere path ≡ answer true))
      there path g = exists_in-cases cache_dir path g

  -- What the removals take away: a file whose name begins with the stem of a file that is no checksum, and
  -- which can be removed.
  abbrev pub IsOrphan : List String → List String → String → Type 0
  IsOrphan checksums cache_dir file =
      (c : String) × (contains checksums c ≡ false)
      × (contains (map stem cache_dir) c ≡ true)
      × (starts_with file (c <> ".") ≡ true)
      × (is_some (unlink file) ≡ false)

  drops_one-source :
      (orphans : List String) (file : String)
      → drops_one orphans file ≡ true
      → (c : String) × (contains orphans c ≡ true)
        × (starts_with file (c <> ".") ≡ true)
        × (is_some (unlink file) ≡ false)
  drops_one-source [] file h = absurd (ground arith)
  drops_one-source (c ∷ cs) file h = elim (Bool-cases (drops c file)) [
    | inl d ↦ (c, ground arith, ground (arith, d), ground (arith, d))
    | inr d ↦
        let (c', m, s, u) = drops_one-source cs file (ground (arith, h, d)) in
        (c', ground (arith, m), s, u)
  ]

  drops_one-IsOrphan :
      (checksums cache_dir : List String) (file : String)
      → drops_one (orphaned_files env unquote elsewhere unlink directory cache_dir checksums) file
        ≡ true
      → IsOrphan checksums cache_dir file
  unfolding orphaned_files
  drops_one-IsOrphan checksums cache_dir file h =
      let (c, m, s, u) =
        drops_one-source (drop_if (contains checksums) (distinct (map stem cache_dir))) file h in
      let (unknown, known) = drop_if-contains checksums (distinct (map stem cache_dir)) c m in
      (c, unknown, distinct-contains (map stem cache_dir) c known, s, u)

  module _ (C : Collection TransformDoc) (L : IsLawful C) (cache_dir : List String) where
    abbrev IsFound : TransformDoc → Type 0
    IsFound d =
        is_found env unquote elsewhere unlink directory
          (has_output env unquote elsewhere unlink directory cache_dir d.cache_uri)
        ≡ true

    abbrev IsListed : List String → TransformDoc → Type 0
    IsListed ids d =
        (is_found env unquote elsewhere unlink directory
            (has_output env unquote elsewhere unlink directory cache_dir d.cache_uri)
          || contains ids d.id)
        ≡ true

    stale_records-IsListed :
        (docs : List TransformDoc)
        → All (IsListed (stale_records env unquote elsewhere unlink directory cache_dir docs)) docs
    unfolding stale_records
    stale_records-IsListed [] = tt
    stale_records-IsListed (d ∷ docs) = (
      ground arith,
      All-map (IsListed (stale_records env unquote elsewhere unlink directory cache_dir docs))
          (IsListed (stale_records env unquote elsewhere unlink directory cache_dir (d ∷ docs)))
          docs (λ x h. ground (arith, h)) (stale_records-IsListed docs),
    )

    IsFound-drop_if :
        (ids : List String) (docs : List TransformDoc)
        → All (IsListed ids) docs
        → All IsFound (drop_if (λ d. contains ids d.id) docs)
    IsFound-drop_if ids [] h = tt
    IsFound-drop_if ids (d ∷ docs) (h, hs) = elim (Bool-cases (contains ids d.id)) [
      | inl e ↦ rw e (IsFound-drop_if ids docs hs)
      | inr e ↦ rw e (ground (arith, h, e), IsFound-drop_if ids docs hs)
    ]

    all-delete_stale :
        (ids : List String) (s : C.State)
        → C.all (delete_stale env unquote elsewhere unlink directory C ids s)
          ≡ drop_if (λ d. contains ids d.id) (C.all s)
    all-delete_stale [] s = keeps_all (C.all s)
      where
        keeps_all : (docs : List TransformDoc) → docs ≡ drop_if (λ d. contains [] d.id) docs
        keeps_all [] = refl
        keeps_all (d ∷ docs) = ap (λ ds. d ∷ ds) (keeps_all docs)
    all-delete_stale (id ∷ ids) s = L.all-delete_many s _

    stems-contains :
        (files : List String) → All (λ file. contains (map stem files) (stem file) ≡ true) files
    stems-contains [] = tt
    stems-contains (f ∷ fs) = (
      ground arith,
      All-map (λ file. contains (map stem fs) (stem file) ≡ true)
          (λ file. contains (map stem (f ∷ fs)) (stem file) ≡ true) fs (λ file h. ground (arith, h))
          (stems-contains fs),
    )

    -- Every record that is left after the pruning had its output before it. Every file that is left has a
    -- checksum of a record from before for its stem, or is not named after its stem, or can not be
    -- removed. Any file name is there after the pruning just if it was there before, unless it can be
    -- removed and begins with a stem that is no such checksum.
    pub prune-IsNamed :
        (s : C.State) (file : String)
        → (let after = (prune env unquote elsewhere unlink directory C cache_dir s).1 in
            let checksums = map (λ (d : TransformDoc). d.checksum) (C.all s) in
            All (λ d. HasOutput cache_dir d.cache_uri) (C.all after.1)
            × All (IsNamed checksums) after.0
            × ((contains after.0 file ≡ contains cache_dir file)
                ⊎ IsOrphan checksums cache_dir file))
    unfolding prune orphaned_files
    prune-IsNamed s file =
        let docs = C.all s in
        let checksums = map (λ (d : TransformDoc). d.checksum) docs in
        let orphans = orphaned_files env unquote elsewhere unlink directory cache_dir checksums in
        let ids = stale_records env unquote elsewhere unlink directory cache_dir docs in
        (
          subst (All (λ d. HasOutput cache_dir d.cache_uri)) (sym (all-delete_stale ids s)) (
              All-map IsFound (λ d. HasOutput cache_dir d.cache_uri)
                (drop_if (λ d. contains ids d.id) docs)
                (λ d h. found-HasOutput cache_dir d.cache_uri h)
                (IsFound-drop_if ids docs (stale_records-IsListed docs))),
          subst (All (IsNamed checksums)) (sym (remove_orphans-drop_if orphans cache_dir)) (
              kept checksums orphans cache_dir (
                All-map (λ file. contains (map stem cache_dir) (stem file) ≡ true)
                  (λ file. (contains checksums (stem file) || contains orphans (stem file)) ≡ true)
                  cache_dir
                  (λ file h.
                    contains-drop_if checksums (distinct (map stem cache_dir)) (stem file)
                      (contains-distinct (map stem cache_dir) (stem file) h))
                  (stems-contains cache_dir))),
          elim (Bool-cases (drops_one orphans file)) [
            | inl d ↦ inr (drops_one-IsOrphan checksums cache_dir file d)
            | inr d ↦ inl (
                ap (λ files. contains files file) (remove_orphans-drop_if orphans cache_dir)
                ∙ contains-kept (drops_one orphans) file d cache_dir)
          ],
        )
      where
        kept :
            (checksums orphans files : List String)
            → All
                (λ file. (contains checksums (stem file) || contains orphans (stem file)) ≡ true)
                files
            → All (IsNamed checksums) (drop_if (drops_one orphans) files)
        kept checksums orphans [] h = tt
        kept checksums orphans (f ∷ fs) (h, hs) = elim (Bool-cases (drops_one orphans f)) [
          | inl d ↦ rw d (kept checksums orphans fs hs)
          | inr d ↦ rw d (kept-IsNamed checksums orphans f h d, kept checksums orphans fs hs)
        ]
