-- ===== src/Transform/Cache/Laws.antt =====
-- Eviction (wks/api/transform/_CacheManager.py).
use wks.Common.{
  ℕ, suc, ◌+◌, ◌-◌, ◌≤◌, ◌<◌, String, ◌≡◌, refl, ◌⊎◌, inl, inr, Bool, true, false, ◌||◌, Option,
  none, some, List, [], ◌∷◌, ◌++◌, map, string_eq, list_eq, arith, if◌then◌else◌, leb, drop_if,
  contains, Bool-cases, ap, ◌∙◌, sym, leb→le,
}
use wks.FilePath.{FilePath}
use wks.Transform.Cache.{
  ℤ, pos, negsuc, add_size, subtract_size, CacheEntry, CacheState, load_cache_size, until_freed,
  lru_order, get_lru_entries, evict, evict_all, total_freed, evict_entries, ensure_space,
  difference,
}

abbrev checksums : List CacheEntry → List String
checksums = map (λ (d : CacheEntry). d.checksum)

abbrev Picked : ℕ → ℕ → List CacheEntry → List CacheEntry → List CacheEntry → Type 0
Picked bytes_needed freed order picked rest =
    (order ≡ picked ++ rest) × ((bytes_needed ≤ freed + total_freed picked) ⊎ (rest ≡ []))

Picked-cons :
    (bytes_needed freed : ℕ) (e : CacheEntry) (order picked rest : List CacheEntry)
    → Picked bytes_needed (freed + e.size_bytes) order picked rest
    → Picked bytes_needed freed (e ∷ order) (e ∷ picked) rest
Picked-cons bytes_needed freed e order picked rest (same, inl enough) =
    (ap (◌∷◌ e) same, inl (omega (arith, enough)))
Picked-cons bytes_needed freed e order picked rest (same, inr none_left) =
    (ap (◌∷◌ e) same, inr none_left)

until_freed_lem :
    (bytes_needed freed : ℕ) (order : List CacheEntry)
    → (rest : List CacheEntry) × Picked bytes_needed freed order
        (until_freed bytes_needed freed order)
        rest
unfolding until_freed
until_freed_lem bytes_needed freed [] = ([], (refl, inr refl))
until_freed_lem bytes_needed freed (e ∷ es) =
    let (rest, picked) = until_freed_lem bytes_needed (freed + e.size_bytes) es in
    elim (Bool-cases (leb bytes_needed freed)) [
      | inl h ↦ (e ∷ es, rw h (refl, inl (ground arith)))
      | inr h ↦ (
        rest,
        rw h (
            Picked-cons bytes_needed freed e es (until_freed bytes_needed (freed + e.size_bytes) es)
              rest picked),
      )
    ]

-- `n ≤ limit`
abbrev pub Fits : ℕ → ℤ → Type 0
Fits limit (pos n) = n ≤ limit
Fits limit (negsuc n) = Unit

abbrev natural : ℤ → ℕ
natural (pos n) = n
natural (negsuc n) = 0

natural-difference : (x y : ℕ) → natural (difference x y) ≡ x - y
natural-difference x y = elim (Bool-cases (leb y x)) [
  | inl h ↦ rw h refl
  | inr h ↦ rw h (ground arith)
]

difference-Fits : (limit x y : ℕ) → x ≤ limit + y → Fits limit (difference x y)
difference-Fits limit x y le = elim (Bool-cases (leb y x)) [
  | inl h ↦ rw h (omega (arith, le))
  | inr h ↦ rw h tt
]

freed-Fits :
    (limit added freed wanted : ℕ) (current : ℤ)
    → add_size current added ≡ pos wanted
    → wanted - limit ≤ freed
    → Fits limit (add_size (subtract_size current freed) added)
unfolding add_size subtract_size
freed-Fits limit added freed wanted (pos a) e h = elim (Bool-cases (leb freed a)) [
  | inl le ↦ rw le (ground (arith, h, ap natural e))
  | inr gt ↦
      rw gt (difference-Fits limit added (suc (freed - suc a)) (ground (arith, h, ap natural e)))
]
freed-Fits limit added freed wanted (negsuc a) e h =
    difference-Fits limit added (suc (a + freed))
      (omega (arith, h, ap natural e, natural-difference added (suc a)))

freed_or :
    (limit added wanted freed : ℕ) (current : ℤ) (rest : List CacheEntry)
    → add_size current added ≡ pos wanted
    → (wanted - limit ≤ 0 + freed) ⊎ (rest ≡ [])
    → Fits limit (add_size (subtract_size current freed) added) ⊎ (rest ≡ [])
freed_or limit added wanted freed current rest e (inl enough) =
    inl (freed-Fits limit added freed wanted current e (omega (arith, enough)))
freed_or limit added wanted freed current rest e (inr none_left) = inr none_left

drop_if-or :
    (p q : CacheEntry → Bool) (db : List CacheEntry)
    → drop_if q (drop_if p db) ≡ drop_if (λ d. p d || q d) db
drop_if-or p q [] = refl
drop_if-or p q (d ∷ db) = ground (arith, drop_if-or p q db)

drop_if-none : (db : List CacheEntry) → drop_if (λ (d : CacheEntry). false) db ≡ db
drop_if-none [] = refl
drop_if-none (d ∷ db) = ap (◌∷◌ d) (drop_if-none db)

module _ (path_of : String → FilePath) (by_age : List CacheEntry → List CacheEntry) where
  evict_all-db :
      (picked : List CacheEntry) (s : CacheState)
      → ((evict_all path_of by_age picked s).db
          ≡ drop_if (λ (d : CacheEntry). contains (checksums picked) d.checksum) s.db)
        × (load_cache_size (evict_all path_of by_age picked s) ≡ load_cache_size s)
  unfolding evict_all
  evict_all-db [] s = (sym (drop_if-none s.db), refl)
  evict_all-db (e ∷ es) s =
      let (db, size) = evict_all-db es (evict path_of by_age e s) in
      (db ∙ drop_if-or _ _ s.db, size)

  -- The state in which `picked` were evicted.
  pub record IsEvicted (picked : List CacheEntry) (s s' : CacheState) : Type 0 where
    pub records : s'.db ≡ drop_if (λ (d : CacheEntry). contains (checksums picked) d.checksum) s.db
    pub size : load_cache_size s' ≡ subtract_size (load_cache_size s) (total_freed picked)

  -- What `ensure_space` may return.
  abbrev pub Outcome : ℕ → ℕ → CacheState → Option (List String) × CacheState → Type 0
  Outcome limit added s (none, s') =
      (s' ≡ s)
      × (Fits limit (add_size (load_cache_size s) added) ⊎ (lru_order path_of by_age s.db ≡ []))
  Outcome limit added s (some evicted, s') =
      (picked rest : List CacheEntry) × (evicted ≡ map (λ (d : CacheEntry). d.cache_uri) picked)
      × (lru_order path_of by_age s.db ≡ picked ++ rest)
      × (Fits limit (add_size (load_cache_size s') added) ⊎ (rest ≡ []))
      × IsEvicted picked s s'

  evict_entries-Outcome :
      (limit added wanted : ℕ) (s : CacheState) (order picked rest : List CacheEntry)
      → lru_order path_of by_age s.db ≡ order
      → add_size (load_cache_size s) added ≡ pos wanted
      → limit < wanted
      → Picked (wanted - limit) 0 order picked rest
      → Outcome limit added s (evict_entries path_of by_age picked s)
  unfolding evict_entries
  evict_entries-Outcome limit added wanted s order [] rest o e gt (same, inl enough) =
      absurd (omega (arith, enough))
  evict_entries-Outcome limit added wanted s order [] rest o e gt (same, inr none_left) =
      (refl, inr (o ∙ same ∙ none_left))
  evict_entries-Outcome limit added wanted s order (d ∷ picked) rest o e gt (same, enough) = (
    d ∷ picked,
    rest,
    refl,
    o ∙ same,
    freed_or limit added wanted (total_freed (d ∷ picked)) (load_cache_size s) rest e enough,
    record { records = (evict_all-db (d ∷ picked) s).0; size = refl },
  )

  over_limit-Outcome :
      (limit added : ℕ) (s : CacheState) (wanted : ℕ)
      → add_size (load_cache_size s) added ≡ pos wanted
      → (fits : Bool) → leb wanted limit ≡ fits
      → Outcome limit added s (
          if fits
          then (none, s)
          else evict_entries path_of by_age (get_lru_entries path_of by_age (wanted - limit) s) s)
  unfolding get_lru_entries
  over_limit-Outcome limit added s wanted e true h = (refl, inl (rw e (leb→le wanted limit h)))
  over_limit-Outcome limit added s wanted e false h =
      let (rest, picked) = until_freed_lem (wanted - limit) 0 (lru_order path_of by_age s.db) in
      evict_entries-Outcome limit added wanted s (lru_order path_of by_age s.db)
        (until_freed (wanted - limit) 0 (lru_order path_of by_age s.db)) rest refl e (ground arith)
        picked

  total-Outcome :
      (limit added : ℕ) (s : CacheState) (total : ℤ)
      → add_size (load_cache_size s) added ≡ total
      → Outcome limit added s (elim total [
        | negsuc n ↦ (none, s)
        | pos wanted ↦
            if leb wanted limit
            then (none, s)
            else evict_entries path_of by_age (get_lru_entries path_of by_age (wanted - limit) s) s
      ])
  total-Outcome limit added s (negsuc n) e = (refl, inl (rw e tt))
  total-Outcome limit added s (pos wanted) e =
      over_limit-Outcome limit added s wanted e (leb wanted limit) refl

  -- Before a file is added: if nothing is evicted, the state is unchanged, and the file fits or there
  -- is nothing to evict. Otherwise the records that go stand first in the order of eviction, the file
  -- fits then or no record is left to evict, just the records with a checksum among theirs are gone,
  -- and the size of the cache is less by the sum of their sizes.
  pub ensure_space_lem :
      (limit added : ℕ) (s : CacheState)
      → Outcome limit added s (ensure_space path_of by_age limit added s)
  unfolding ensure_space
  ensure_space_lem limit added s =
      total-Outcome limit added s (add_size (load_cache_size s) added) refl
