-- ===== src/Database/Listed.antt =====
-- A collection that is a list, with positions for ids: it shows that the documented behaviour can be
-- had, and runs the program's code.
use wks.Common.{
  ℕ, zero, suc, ◌+◌, ◌≤◌, ◌≡◌, refl, Bool, false, List, [], ◌∷◌, ◌++◌, arith, if◌then◌else◌,
  drop_if, count_if, length, min, contains, nat_eq, Bool-cases, inl, inr, map,
}
use wks.Database.{Collection, IsLawful, upsert_first}

module _ {D : Type 0} (p : D → Bool) where
  -- The positions, from `i` on, of the first documents that match.
  unfoldable pub positions : ℕ → ℕ → List D → List ℕ
  positions zero i ds = []
  positions (suc n) i [] = []
  positions (suc n) i (d ∷ ds) =
      if p d then i ∷ positions n (suc i) ds else positions (suc n) (suc i) ds

  not-contains-positions :
      (n i j : ℕ) (ds : List D) → suc j ≤ i → contains (positions n i ds) j ≡ false
  unfolding positions
  not-contains-positions zero i j ds h = refl
  not-contains-positions (suc n) i j [] h = refl
  not-contains-positions (suc n) i j (d ∷ ds) h =
      ground
        (arith, not-contains-positions n (suc i) j ds, not-contains-positions (suc n) (suc i) j ds)

  length-positions : (n i : ℕ) (ds : List D) → length (positions n i ds) ≡ min n (count_if p ds)
  unfolding positions
  length-positions zero i ds = omega arith
  length-positions (suc n) i [] = omega arith
  length-positions (suc n) i (d ∷ ds) =
      ground (arith, length-positions n (suc i) ds, length-positions (suc n) (suc i) ds)

unfoldable pub without_positions {ℓ} : {D : Type ℓ} → List ℕ → ℕ → List D → List D
without_positions ids i [] = []
without_positions ids i (d ∷ ds) =
    if contains ids i
    then without_positions ids (suc i) ds
    else d ∷ without_positions ids (suc i) ds

module _ {D : Type 0} (p : D → Bool) where
  -- Only the ids from `i` on count.
  count_if-without_positions :
      (n i : ℕ) (ds : List D) (ids : List ℕ)
      → ((j : ℕ) → i ≤ j → contains ids j ≡ contains (positions p n i ds) j)
      → count_if p (without_positions ids i ds) + length (positions p n i ds) ≡ count_if p ds
  unfolding positions without_positions
  count_if-without_positions zero i [] ids h = omega arith
  count_if-without_positions (suc n) i [] ids h = omega arith
  count_if-without_positions zero i (d ∷ ds) ids h = ground (
    arith,
    h i (omega arith),
    count_if-without_positions zero (suc i) ds ids (λ j le. h j (omega (arith, le))),
  )
  count_if-without_positions (suc n) i (d ∷ ds) ids h = elim (Bool-cases (p d)) [
    | inl e ↦
        let later : (j : ℕ) → suc i ≤ j → contains ids j ≡ contains (positions p n (suc i) ds) j =
          λ j le. ground (arith, h j (omega (arith, le))) in
        ground (arith, h i (omega arith), count_if-without_positions n (suc i) ds ids later)
    | inr e ↦
        let later : (j : ℕ)
            → suc i ≤ j
            → contains ids j ≡ contains (positions p (suc n) (suc i) ds) j =
          λ j le. ground (arith, h j (omega (arith, le))) in
        ground (
          arith,
          h i (omega arith),
          not-contains-positions p (suc n) (suc i) i ds (omega arith),
          count_if-without_positions (suc n) (suc i) ds ids later,
        )
  ]

abbrev pub listed : (D : Type 0) → Collection D
listed D = record {
  State = List D;
  DocId = ℕ;
  all = λ ds. ds;
  delete_many = λ ds p. drop_if p ds;
  upsert = λ ds p change new. upsert_first p change new ds;
  update_many = λ ds p change. map (λ d. if p d then change d else d) ds;
  insert_many = λ ds new. ds ++ new;
  find_first = λ ds p n. positions p n 0 ds;
  delete_ids = λ ds ids. without_positions ids 0 ds;
}

pub listed-IsLawful : (D : Type 0) → IsLawful (listed D)
listed-IsLawful D = record {
  all-delete_many = λ s p. refl;
  all-upsert = λ s p change new. refl;
  all-update_many = λ s p change. refl;
  all-insert_many = λ s ds. refl;
  length-find_first = λ s p n. length-positions p n 0 s;
  count_if-delete_ids =
      λ s p n. count_if-without_positions p n 0 s (positions p n 0 s) (λ j le. refl);
}
