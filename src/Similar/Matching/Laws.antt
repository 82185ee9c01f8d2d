-- ===== src/Similar/Matching/Laws.antt =====
-- The greedy matching (wks/api/similar/_similar_helpers.py).
use wks.Common.{
  ℕ, suc, ◌+◌, ◌≡◌, refl, ◌⊎◌, inl, inr, true, false, not, ◌||◌, List, [], ◌∷◌, ◌++◌, map, arith,
  nat_eq, contains, sort_by, All, All-append, All-sort_by, Bool-cases, ap, ◌∙◌, sym, subst,
  get_elem?, some, none, Option, Bool, zero, sort_by-All, if◌then◌else◌,
}
use wks.Common.Float.{Float}
use wks.Similar.Matching.{Pair, row_pairs, all_pairs, take_pairs, greedy_matches}

contains-append :
    (xs ys : List ℕ) (a : ℕ) → contains (xs ++ ys) a ≡ (contains xs a || contains ys a)
contains-append [] ys a = refl
contains-append (x ∷ xs) ys a = ground (arith, contains-append xs ys a)

-- No number stands in the list twice.
abbrev pub AreDistinct : List ℕ → Type 0
AreDistinct [] = Unit
AreDistinct (x ∷ xs) = (contains xs x ≡ false) × AreDistinct xs

AreDistinct-push :
    (xs : List ℕ) (a : ℕ) → AreDistinct xs → contains xs a ≡ false → AreDistinct (xs ++ a ∷ [])
AreDistinct-push [] a d h = (refl, tt)
AreDistinct-push (x ∷ xs) a (h, d) n =
    (ground (arith, contains-append xs (a ∷ []) x), AreDistinct-push xs a d (ground arith))

module _ (F : Float) where
  abbrev pub queries : List (Pair F) → List ℕ
  queries = map (λ (p : Pair F). p.query_idx)

  abbrev pub candidates : List (Pair F) → List ℕ
  candidates = map (λ (p : Pair F). p.candidate_idx)

  queries-append :
      (ms : List (Pair F)) (p : Pair F) → queries (ms ++ p ∷ []) ≡ queries ms ++ p.query_idx ∷ []
  queries-append [] p = refl
  queries-append (m ∷ ms) p = ap (◌∷◌ m.query_idx) (queries-append ms p)

  candidates-append :
      (ms : List (Pair F)) (p : Pair F)
      → candidates (ms ++ p ∷ []) ≡ candidates ms ++ p.candidate_idx ∷ []
  candidates-append [] p = refl
  candidates-append (m ∷ ms) p = ap (◌∷◌ m.candidate_idx) (candidates-append ms p)

  -- A pair can not be added: its row or its column is taken.
  abbrev pub IsBlocked : List (Pair F) → Pair F → Type 0
  IsBlocked ms p =
      (contains (queries ms) p.query_idx ≡ true) ⊎ (contains (candidates ms) p.candidate_idx ≡ true)

  IsBlocked-push : (ms : List (Pair F)) (q p : Pair F) → IsBlocked ms p → IsBlocked (ms ++ q ∷ []) p
  IsBlocked-push ms q p (inl h) = inl (
      rw (queries-append ms q)
        (ground (arith, contains-append (queries ms) (q.query_idx ∷ []) p.query_idx)))
  IsBlocked-push ms q p (inr h) = inr (
      rw (candidates-append ms q)
        (ground (arith, contains-append (candidates ms) (q.candidate_idx ∷ []) p.candidate_idx)))

  module _ (Eligible : Pair F → Type 0) where
    -- The sets of the loop show the matches, which are a matching of eligible pairs.
    record IsMatching (ms : List (Pair F)) (uq uc : List ℕ) : Type 0 where
      same_queries : (a : ℕ) → contains uq a ≡ contains (queries ms) a
      same_candidates : (a : ℕ) → contains uc a ≡ contains (candidates ms) a
      distinct_queries : AreDistinct (queries ms)
      distinct_candidates : AreDistinct (candidates ms)
      eligible : All Eligible ms

    IsMatching-push :
        (ms : List (Pair F)) (uq uc : List ℕ) (p : Pair F)
        → IsMatching ms uq uc
        → Eligible p
        → contains uq p.query_idx ≡ false
        → contains uc p.candidate_idx ≡ false
        → IsMatching (ms ++ p ∷ []) (p.query_idx ∷ uq) (p.candidate_idx ∷ uc)
    IsMatching-push ms uq uc p m h nq nc = record {
      same_queries = λ a.
          rw (queries-append ms p)
            (ground (arith, m.same_queries a, contains-append (queries ms) (p.query_idx ∷ []) a));
      same_candidates = λ a. rw (candidates-append ms p) (
          ground
            (arith, m.same_candidates a, contains-append (candidates ms) (p.candidate_idx ∷ []) a));
      distinct_queries = rw (queries-append ms p) (
          AreDistinct-push (queries ms) p.query_idx m.distinct_queries
            (sym (m.same_queries p.query_idx) ∙ nq));
      distinct_candidates = rw (candidates-append ms p) (
          AreDistinct-push (candidates ms) p.candidate_idx m.distinct_candidates
            (sym (m.same_candidates p.candidate_idx) ∙ nc));
      eligible = All-append Eligible ms (p ∷ []) m.eligible (h, tt);
    }

    -- No chunk is taken twice, and every match is eligible.
    pub record IsInjective (ms : List (Pair F)) : Type 0 where
      pub distinct_queries : AreDistinct (queries ms)
      pub distinct_candidates : AreDistinct (candidates ms)
      pub eligible : All Eligible ms

    take_pairs-IsInjective :
        (ps : List (Pair F)) (uq uc : List ℕ) (ms : List (Pair F))
        → IsMatching ms uq uc
        → All Eligible ps
        → IsInjective (take_pairs F ps uq uc ms)
    unfolding take_pairs
    take_pairs-IsInjective [] uq uc ms m h = record {
      distinct_queries = m.distinct_queries;
      distinct_candidates = m.distinct_candidates;
      eligible = m.eligible;
    }
    take_pairs-IsInjective (p ∷ ps) uq uc ms m (h, hs) =
        elim (Bool-cases (contains uq p.query_idx || contains uc p.candidate_idx)) [
          | inl e ↦ rw e (take_pairs-IsInjective ps uq uc ms m hs)
          | inr e ↦ rw e (
              take_pairs-IsInjective ps (p.query_idx ∷ uq) (p.candidate_idx ∷ uc) (ms ++ p ∷ [])
                (IsMatching-push ms uq uc p m h (ground arith) (ground arith)) hs)
        ]

    -- A pair that is blocked stays so.
    take_pairs-IsBlocked :
        (ps : List (Pair F)) (uq uc : List ℕ) (ms : List (Pair F)) (q : Pair F)
        → IsBlocked ms q
        → IsBlocked (take_pairs F ps uq uc ms) q
    unfolding take_pairs
    take_pairs-IsBlocked [] uq uc ms q b = b
    take_pairs-IsBlocked (p ∷ ps) uq uc ms q b =
        elim (Bool-cases (contains uq p.query_idx || contains uc p.candidate_idx)) [
          | inl e ↦ rw e (take_pairs-IsBlocked ps uq uc ms q b)
          | inr e ↦ rw e (
              take_pairs-IsBlocked ps (p.query_idx ∷ uq) (p.candidate_idx ∷ uc) (ms ++ p ∷ []) q
                (IsBlocked-push ms p q b))
        ]

    IsBlocked-self : (ms : List (Pair F)) (p : Pair F) → IsBlocked (ms ++ p ∷ []) p
    IsBlocked-self ms p = inl (
        rw (queries-append ms p)
          (ground (arith, contains-append (queries ms) (p.query_idx ∷ []) p.query_idx)))

    used-IsBlocked :
        (ms : List (Pair F)) (uq uc : List ℕ) (p : Pair F)
        → IsMatching ms uq uc
        → (contains uq p.query_idx || contains uc p.candidate_idx) ≡ true
        → IsBlocked ms p
    used-IsBlocked ms uq uc p m e = elim (Bool-cases (contains uq p.query_idx)) [
      | inl h ↦ inl (sym (m.same_queries p.query_idx) ∙ h)
      | inr h ↦ inr (sym (m.same_candidates p.candidate_idx) ∙ ground arith)
    ]

    take_pairs-skip :
        (p : Pair F) (ps : List (Pair F)) (uq uc : List ℕ) (ms : List (Pair F))
        → (contains uq p.query_idx || contains uc p.candidate_idx) ≡ true
        → take_pairs F (p ∷ ps) uq uc ms ≡ take_pairs F ps uq uc ms
    unfolding take_pairs
    take_pairs-skip p ps uq uc ms e = rw e refl

    take_pairs-take :
        (p : Pair F) (ps : List (Pair F)) (uq uc : List ℕ) (ms : List (Pair F))
        → (contains uq p.query_idx || contains uc p.candidate_idx) ≡ false
        → take_pairs F (p ∷ ps) uq uc ms
          ≡ take_pairs F ps (p.query_idx ∷ uq) (p.candidate_idx ∷ uc) (ms ++ p ∷ [])
    unfolding take_pairs
    take_pairs-take p ps uq uc ms e = rw e refl

    take_pairs_maximal :
        (ps : List (Pair F)) (uq uc : List ℕ) (ms result : List (Pair F))
        → IsMatching ms uq uc
        → All Eligible ps
        → take_pairs F ps uq uc ms ≡ result
        → All (IsBlocked result) ps
    take_pairs_maximal [] uq uc ms result m h e = tt
    take_pairs_maximal (p ∷ ps) uq uc ms result m (h, hs) e =
        elim (Bool-cases (contains uq p.query_idx || contains uc p.candidate_idx)) [
          | inl used ↦
              let e' = sym (take_pairs-skip p ps uq uc ms used) ∙ e in
              (
                subst (λ r. IsBlocked r p) e'
                    (take_pairs-IsBlocked ps uq uc ms p (used-IsBlocked ms uq uc p m used)),
                take_pairs_maximal ps uq uc ms result m hs e',
              )
          | inr free ↦
              let e' = sym (take_pairs-take p ps uq uc ms free) ∙ e in
              (
                subst (λ r. IsBlocked r p) e'
                    (take_pairs-IsBlocked ps (p.query_idx ∷ uq) (p.candidate_idx ∷ uc)
                      (ms ++ p ∷ []) p (IsBlocked-self ms p)),
                take_pairs_maximal ps (p.query_idx ∷ uq) (p.candidate_idx ∷ uc) (ms ++ p ∷ [])
                    result (IsMatching-push ms uq uc p m h (ground arith) (ground arith)) hs e',
              )
        ]

  -- A pair of the matrix that reaches the threshold: the score stands at its row and its column.
  abbrev pub IsEligible : List (List F.Number) → F.Number → Pair F → Type 0
  IsEligible similarity threshold p =
      (row : List F.Number) × (get_elem? similarity p.query_idx ≡ some row)
      × (get_elem? row p.candidate_idx ≡ some p.score)
      × (F.le threshold p.score ≡ true)

  -- The columns from `i` on, of which `row` is the rest.
  IsTail : List F.Number → ℕ → List F.Number → Type 0
  IsTail whole i row = (j : ℕ) → get_elem? whole (i + j) ≡ get_elem? row j

  row_pairs-IsEligible :
      (similarity : List (List F.Number)) (threshold : F.Number) (r i : ℕ)
      (whole row : List F.Number)
      → get_elem? similarity r ≡ some whole
      → IsTail whole i row
      → All (IsEligible similarity threshold) (row_pairs F threshold r i row)
  unfolding row_pairs IsTail
  row_pairs-IsEligible similarity threshold r i whole [] at_row tail = tt
  row_pairs-IsEligible similarity threshold r i whole (x ∷ xs) at_row tail =
      let rest =
        row_pairs-IsEligible similarity threshold r (suc i) whole xs at_row
          (λ j. let e : suc i + j ≡ i + suc j = omega arith in rw e (tail (suc j))) in
      elim (Bool-cases (F.le threshold x)) [
        | inl h ↦
            let here : i + 0 ≡ i = omega arith in
            rw h ((whole, at_row, rw here at (tail 0), h), rest)
        | inr h ↦ rw h rest
      ]

  all_pairs-IsEligible :
      (similarity : List (List F.Number)) (threshold : F.Number) (r : ℕ)
      (rows : List (List F.Number))
      → ((j : ℕ) → get_elem? similarity (r + j) ≡ get_elem? rows j)
      → All (IsEligible similarity threshold) (all_pairs F threshold r rows)
  unfolding all_pairs IsTail
  all_pairs-IsEligible similarity threshold r [] tail = tt
  all_pairs-IsEligible similarity threshold r (row ∷ rows) tail =
      let here : r + 0 ≡ r = omega arith in
      All-append (IsEligible similarity threshold) (row_pairs F threshold r 0 row)
        (all_pairs F threshold (suc r) rows)
        (row_pairs-IsEligible similarity threshold r 0 row row (rw here at (tail 0))
          (λ j. let e : 0 + j ≡ j = omega arith in rw e refl))
        (all_pairs-IsEligible similarity threshold (suc r) rows
          (λ j. let e : suc r + j ≡ r + suc j = omega arith in rw e (tail (suc j))))

  append-All :
      (P : Pair F → Type 0) (xs ys : List (Pair F)) → All P (xs ++ ys) → All P xs × All P ys
  append-All P [] ys h = (tt, h)
  append-All P (x ∷ xs) ys (h, hs) = let (hx, hy) = append-All P xs ys hs in ((h, hx), hy)

  -- If there is a score at this place which reaches the threshold, the pair is as it says.
  abbrev Meets : (Pair F → Type 0) → F.Number → ℕ → ℕ → Option F.Number → Type 0
  Meets P threshold i j none = Unit
  Meets P threshold i j (some score) =
      (F.le threshold score ≡ false)
      ⊎ P (record { score = score; query_idx = i; candidate_idx = j })

  -- The score at a row and a column of the matrix.
  abbrev pub entry : List (List F.Number) → ℕ → ℕ → Option F.Number
  entry [] i j = none
  entry (row ∷ rows) zero j = get_elem? row j
  entry (row ∷ rows) (suc i) j = entry rows i j

  row_pairs-Meets :
      (P : Pair F → Type 0) (threshold : F.Number) (r c : ℕ) (row : List F.Number)
      → All P (row_pairs F threshold r c row)
      → (j : ℕ) → Meets P threshold r (c + j) (get_elem? row j)
  unfolding row_pairs
  row_pairs-Meets P threshold r c [] h j = tt
  row_pairs-Meets P threshold r c (x ∷ xs) h j =
      by_test (F.le threshold x) refl h (row_pairs-Meets P threshold r (suc c) xs) j
    where
      later : (j : ℕ) → suc c + j ≡ c + suc j
      later j = omega arith

      here : c ≡ c + 0
      here = omega arith

      by_test :
          (b : Bool)
          → F.le threshold x ≡ b
          → All P (
              if b
              then record { score = x; query_idx = r; candidate_idx = c }
                ∷ row_pairs F threshold r (suc c) xs
              else row_pairs F threshold r (suc c) xs)
          → (All P (row_pairs F threshold r (suc c) xs)
              → (i : ℕ) → Meets P threshold r (suc c + i) (get_elem? xs i))
          → (j : ℕ) → Meets P threshold r (c + j) (get_elem? (x ∷ xs) j)
      by_test true e (h, hs) rest zero =
          inr (subst (λ n. P (record { score = x; query_idx = r; candidate_idx = n })) here h)
      by_test true e (h, hs) rest (suc i) =
          subst (λ n. Meets P threshold r n (get_elem? xs i)) (later i) (rest hs i)
      by_test false e hs rest zero = inl e
      by_test false e hs rest (suc i) =
          subst (λ n. Meets P threshold r n (get_elem? xs i)) (later i) (rest hs i)

  -- The list of all pairs has every pair of the matrix that reaches the threshold.
  all_pairs-Meets :
      (P : Pair F → Type 0) (threshold : F.Number) (r : ℕ) (rows : List (List F.Number))
      → All P (all_pairs F threshold r rows)
      → (i j : ℕ) → Meets P threshold (r + i) j (entry rows i j)
  unfolding all_pairs
  all_pairs-Meets P threshold r [] h i j = tt
  all_pairs-Meets P threshold r (row ∷ rows) h zero j =
      let same : r ≡ r + 0 = omega arith in
      let at_zero : 0 + j ≡ j = omega arith in
      subst (λ n. Meets P threshold n j (get_elem? row j)) same
        (subst (λ n. Meets P threshold r n (get_elem? row j)) at_zero
          (row_pairs-Meets P threshold r 0 row
            (append-All P (row_pairs F threshold r 0 row) (all_pairs F threshold (suc r) rows) h).0
            j))
  all_pairs-Meets P threshold r (row ∷ rows) h (suc i) j =
      let later : suc r + i ≡ r + suc i = omega arith in
      subst (λ n. Meets P threshold n j (entry rows i j)) later
        (all_pairs-Meets P threshold (suc r) rows
          (append-All P (row_pairs F threshold r 0 row) (all_pairs F threshold (suc r) rows) h).1 i
          j)

  abbrev sorted_pairs : List (List F.Number) → F.Number → List (Pair F)
  sorted_pairs similarity threshold =
      sort_by (λ (a b : Pair F). not (F.lt a.score b.score)) (all_pairs F threshold 0 similarity)

  -- The matches take no chunk of the query and none of the candidate twice; each has the score of the
  -- matrix at its place, which reaches the threshold; and wherever the score of the matrix reaches the
  -- threshold, the row or the column is taken, so that no pair can be added.
  pub greedy_matches-IsMaximal :
      (similarity : List (List F.Number)) (threshold : F.Number) (i j : ℕ)
      → IsInjective (IsEligible similarity threshold) (greedy_matches F similarity threshold)
        × Meets
            (IsBlocked (greedy_matches F similarity threshold))
            threshold
            i
            j
            (entry similarity i j)
  unfolding greedy_matches
  greedy_matches-IsMaximal similarity threshold i j =
      let before : Pair F → Pair F → Bool = λ a b. not (F.lt a.score b.score) in
      let matches = greedy_matches F similarity threshold in
      let eligible =
        All-sort_by before (IsEligible similarity threshold) (all_pairs F threshold 0 similarity) (
          all_pairs-IsEligible similarity threshold 0 similarity
            (λ j. let e : 0 + j ≡ j = omega arith in rw e refl)) in
      let start : IsMatching (IsEligible similarity threshold) [] [] [] = record {
        same_queries = λ a. refl;
        same_candidates = λ a. refl;
        distinct_queries = tt;
        distinct_candidates = tt;
        eligible = tt;
      } in
      let at_zero : 0 + i ≡ i = omega arith in
      (
        take_pairs-IsInjective (IsEligible similarity threshold) (sorted_pairs similarity threshold)
            [] [] [] start eligible,
        subst (λ n. Meets (IsBlocked matches) threshold n j (entry similarity i j)) at_zero
            (all_pairs-Meets (IsBlocked matches) threshold 0 similarity
              (sort_by-All before (IsBlocked matches) (all_pairs F threshold 0 similarity) (
                take_pairs_maximal (IsEligible similarity threshold)
                  (sorted_pairs similarity threshold) [] [] [] matches start eligible refl))
              i j),
      )
