-- ===== src/Transform/Cache.antt =====
-- `_CacheManager` (wks/api/transform/_CacheManager.py): the size of the cache, and the eviction of
-- old outputs.
pub mod Laws
use wks.Common.{
  ℕ, suc, ◌+◌, ◌-◌, String, Bool, not, ◌&&◌, Option, none, some, List, [], ◌∷◌, ◌++◌, map, ◌==◌,
  string_eq, list_eq, if◌then◌else◌, leb, ltb, keep_if, drop_if, contains, sort_by,
}
use wks.Common.Text.{text_before}
use wks.FilePath.{FilePath, name, suffix}

-- Python's `int`
pub data ℤ : Type 0 where
  pos negsuc : ℕ → ℤ

abbrev pub difference : ℕ → ℕ → ℤ
difference a b = if leb b a then pos (a - b) else negsuc (b - suc a)

unfoldable pub add_size : ℤ → ℕ → ℤ
add_size (pos a) n = pos (a + n)
add_size (negsuc a) n = difference n (suc a)

unfoldable pub subtract_size : ℤ → ℕ → ℤ
subtract_size (pos a) n = difference a n
subtract_size (negsuc a) n = negsuc (a + n)

-- A record of the database of transforms, as far as the cache reads it.
pub record CacheEntry : Type 0 where
  pub checksum : String
  pub size_bytes : ℕ
  pub cache_uri : String
  pub last_accessed : String

-- The file `cache.json`: missing or without a total, which both count as 0, or with one.
pub data CacheFile : Type 0 where
  no_total : CacheFile
  total_size : ℤ → CacheFile

-- The size on disk, the records of the database, and the outputs that exist.
pub record CacheState : Type 0 where
  pub cache_json : CacheFile
  pub db : List CacheEntry
  pub existing : List FilePath

abbrev pub load_cache_size : CacheState → ℤ
load_cache_size s = elim s.cache_json [ no_total ↦ pos 0 | total_size n ↦ n ]

abbrev pub save_cache_size : ℤ → CacheState → CacheState
save_cache_size n s = record s { cache_json = total_size n }

unfoldable pub add_file : ℕ → CacheState → CacheState
add_file file_size s = save_cache_size (add_size (load_cache_size s) file_size) s

-- `max(0, n)`
abbrev pub at_least_zero : ℤ → ℤ
at_least_zero (pos n) = pos n
at_least_zero (negsuc n) = pos 0

unfoldable pub remove_file : ℕ → CacheState → CacheState
remove_file file_size s =
    save_cache_size (at_least_zero (subtract_size (load_cache_size s) file_size)) s

-- The last loop: entries until they free what is needed.
unfoldable pub until_freed : ℕ → ℕ → List CacheEntry → List CacheEntry
until_freed bytes_needed total_freed [] = []
until_freed bytes_needed total_freed (e ∷ es) =
    let more = until_freed bytes_needed (total_freed + e.size_bytes) es in
    if leb bytes_needed total_freed then [] else e ∷ more

-- The sum that the loop of `ensure_space` takes.
abbrev pub total_freed : List CacheEntry → ℕ
total_freed [] = 0
total_freed (e ∷ es) = e.size_bytes + total_freed es

-- `path_of` is `URI(cache_uri).path` of a file address, which the controller writes in every record that it
-- adds; the `ValueError` for another text in the database is outside the model. `by_age` is the order in which
-- the database returns its records by `last_accessed`.
module _ (path_of : String → FilePath) (by_age : List CacheEntry → List CacheEntry) where
  -- `cache_path.suffix`
  abbrev pub kind_of : CacheEntry → String
  kind_of e = suffix (name (path_of e.cache_uri))

  -- `entries.sort(key=lambda x: x[3])`, which keeps the order of equal keys
  abbrev pub oldest_first : List CacheEntry → List CacheEntry
  oldest_first = sort_by (λ (a b : CacheEntry). not (text_before b.last_accessed a.last_accessed))

  -- Binary outputs, then texts, then the others; each from the least recently used on.
  unfoldable pub lru_order : List CacheEntry → List CacheEntry
  lru_order db =
      oldest_first (keep_if (λ e. kind_of e == ".bin") (by_age db))
      ++ (oldest_first (keep_if (λ e. kind_of e == ".txt") (by_age db))
          ++ oldest_first
              (keep_if (λ e. not (kind_of e == ".bin") && not (kind_of e == ".txt")) (by_age db)))

  unfoldable pub get_lru_entries : ℕ → CacheState → List CacheEntry
  get_lru_entries bytes_needed s = until_freed bytes_needed 0 (lru_order s.db)

  -- One round of the loop over the entries: the file goes, and every record with the checksum, since
  -- `Database.delete_one` deletes all that match.
  abbrev pub evict : CacheEntry → CacheState → CacheState
  evict e s = record s {
    db = drop_if (λ (d : CacheEntry). d.checksum == e.checksum) s.db;
    existing = drop_if (λ p. p == path_of e.cache_uri) s.existing;
  }

  unfoldable pub evict_all : List CacheEntry → CacheState → CacheState
  evict_all [] s = s
  evict_all (e ∷ es) s = evict_all es (evict e s)

  -- From the entries to evict on.
  unfoldable pub evict_entries : List CacheEntry → CacheState → Option (List String) × CacheState
  evict_entries [] s = (none, s)
  evict_entries (e ∷ es) s = (
    some (map (λ (d : CacheEntry). d.cache_uri) (e ∷ es)),
    save_cache_size (subtract_size (load_cache_size s) (total_freed (e ∷ es)))
        (evict_all (e ∷ es) s),
  )

  -- `max_size_bytes` is not negative.
  unfoldable pub ensure_space : ℕ → ℕ → CacheState → Option (List String) × CacheState
  ensure_space max_size_bytes new_file_size s = elim (add_size (load_cache_size s) new_file_size) [
    | negsuc n ↦ (none, s)
    | pos wanted ↦
        if leb wanted max_size_bytes
        then (none, s)
        else evict_entries (get_lru_entries (wanted - max_size_bytes) s) s
  ]
