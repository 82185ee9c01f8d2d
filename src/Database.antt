-- ===== src/Database.antt =====
-- What the program asks of a collection of the database (wks/api/database/Database.py, whose backends
-- pass the calls on to MongoDB), with the documented behaviour that it relies on. A filter is a test
-- on documents.
pub mod Listed
use wks.Common.{
  ℕ, ◌+◌, ◌≡◌, Bool, List, [], ◌∷◌, ◌++◌, if◌then◌else◌, drop_if, count_if, length, min, map,
}

-- The first document that matches is changed; if none does, a new one is added.
unfoldable pub upsert_first {ℓ} : {D : Type ℓ} → (D → Bool) → (D → D) → D → List D → List D
upsert_first p change new [] = new ∷ []
upsert_first p change new (d ∷ ds) = if p d then change d ∷ ds else d ∷ upsert_first p change new ds

pub record Collection (D : Type 0) : Type 1 where
  pub State : Type 0
  pub DocId : Type 0
  -- `find({})`
  pub all : State → List D
  -- `delete_many(filter)`
  pub delete_many : State → (D → Bool) → State
  -- `update_one(filter, {"$set": ...}, upsert=True)`
  pub upsert : State → (D → Bool) → (D → D) → D → State
  -- `update_many(filter, change)`
  pub update_many : State → (D → Bool) → (D → D) → State
  -- `insert_many(documents)`
  pub insert_many : State → List D → State
  -- the ids that `find(filter).sort(...).limit(n)` returns
  pub find_first : State → (D → Bool) → ℕ → List DocId
  -- `delete_many({"_id": {"$in": ids}})`
  pub delete_ids : State → List DocId → State

pub record IsLawful {D : Type 0} (C : Collection D) : Type 0 where
  pub all-delete_many :
      (s : C.State) (p : D → Bool) → C.all (C.delete_many s p) ≡ drop_if p (C.all s)
  pub all-upsert :
      (s : C.State) (p : D → Bool) (change : D → D) (new : D)
      → C.all (C.upsert s p change new) ≡ upsert_first p change new (C.all s)
  pub all-update_many :
      (s : C.State) (p : D → Bool) (change : D → D)
      → C.all (C.update_many s p change) ≡ map (λ d. if p d then change d else d) (C.all s)
  pub all-insert_many : (s : C.State) (ds : List D) → C.all (C.insert_many s ds) ≡ C.all s ++ ds
  -- A limited search finds as many documents as there are, up to the limit; and deleting just what it
  -- found leaves the others.
  pub length-find_first :
      (s : C.State) (p : D → Bool) (n : ℕ)
      → length (C.find_first s p n) ≡ min n (count_if p (C.all s))
  pub count_if-delete_ids :
      (s : C.State) (p : D → Bool) (n : ℕ)
      → count_if p (C.all (C.delete_ids s (C.find_first s p n))) + length (C.find_first s p n)
        ≡ count_if p (C.all s)
