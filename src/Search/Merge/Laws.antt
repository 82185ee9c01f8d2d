-- ===== src/Search/Merge/Laws.antt =====
-- The fusion of ranked lists (wks/api/search/_rrf.py).
use wks.Common.{
  ℕ, suc, ◌*◌, ◌≤◌, ◌<◌, nat_eq, String, ◌≡◌, refl, inl, inr, true, some, List, [], ◌∷◌, arith,
  string_eq, sort_by, take, length, length-take, All, All-take, Bool-cases, Option-cases, ap, sym,
  ◌∙◌, All-map, All-sort_by,
}
use wks.Common.Dict.{Dict, lookup, keys, has_key, lookup-insert}
use wks.Common.Float.{Float}
use wks.Search.Hits.{Hit}
use wks.Search.Merge.{
  Tally, hit_key, counted, count_hit, count_list, count_lists, ranks_before, collect, rrf_merge,
}

module _ (F : Float) (text_of : ℕ → String) where
  -- The two dictionaries have the same keys.
  abbrev pub SameKeys : Tally F text_of → Type 0
  SameKeys t = (k : String) → has_key t.scores k ≡ has_key t.docs k

  counted-SameKeys :
      (rrf_k : ℕ) (t : Tally F text_of) (rank : ℕ) (hit : Hit F)
      → SameKeys t
      → SameKeys (counted F text_of rrf_k t rank hit)
  unfolding counted
  counted-SameKeys rrf_k t rank hit same k =
      elim (Bool-cases (has_key t.docs (hit_key F text_of hit))) [
        | inl old ↦ rw (lookup-insert, old) (ground (arith, same k))
        | inr new ↦ rw new (rw lookup-insert (rw lookup-insert (ground (arith, same k))))
      ]

  -- A hit is counted, since its divisor is positive.
  count_hit_total :
      (rrf_k : ℕ) (t : Tally F text_of) (rank : ℕ) (hit : Hit F)
      → 0 < rrf_k
      → count_hit F text_of rrf_k t rank hit ≡ some (counted F text_of rrf_k t rank hit)
  unfolding count_hit
  count_hit_total rrf_k t rank hit positive = ground (arith, positive)

  count_list_total :
      (rrf_k : ℕ) (t : Tally F text_of) (rank : ℕ) (hits : List (Hit F))
      → 0 < rrf_k
      → SameKeys t
      → (t' : Tally F text_of) × (count_list F text_of rrf_k t rank hits ≡ some t') × SameKeys t'
  unfolding count_list
  count_list_total rrf_k t rank [] positive same = (t, refl, same)
  count_list_total rrf_k t rank (hit ∷ hits) positive same =
      let (t', e, same') =
        count_list_total rrf_k (counted F text_of rrf_k t rank hit) (suc rank) hits positive
          (counted-SameKeys rrf_k t rank hit same) in
      (t', ground (arith, count_hit_total rrf_k t rank hit positive, e), same')

  count_lists_total :
      (rrf_k : ℕ) (t : Tally F text_of) (ranked_lists : List (List (Hit F)))
      → 0 < rrf_k
      → SameKeys t
      → (t' : Tally F text_of) × (count_lists F text_of rrf_k t ranked_lists ≡ some t')
        × SameKeys t'
  unfolding count_lists
  count_lists_total rrf_k t [] positive same = (t, refl, same)
  count_lists_total rrf_k t (ranked ∷ more) positive same =
      let (t', e, same') = count_list_total rrf_k t 0 ranked positive same in
      let (result, e', kept) = count_lists_total rrf_k t' more positive same' in
      (result, ground (arith, e, e'), kept)

  collect_total :
      (t : Tally F text_of) (ks : List String)
      → All (λ k. has_key t.docs k ≡ true) ks
      → (hits : List (Hit F)) × (collect F text_of t ks ≡ some hits) × (length hits ≡ length ks)
  unfolding collect
  collect_total t [] h = ([], refl, refl)
  collect_total t (k ∷ ks) (h, hs) =
      let (hits, e, len) = collect_total t ks hs in
      elim (Option-cases (lookup k t.docs)) [
        | inl n ↦ absurd (ground arith)
        | inr (hit, found) ↦ (
          record hit { score = F.round 6 (wks.Search.Merge.get_or_zero F text_of t.scores k) }
              ∷ hits,
          ground arith,
          ap suc len,
        )
      ]

  has_key-cons :
      (j : String) (v : F.Number) (d : Dict String F.Number) (k : String)
      → has_key d k ≡ true
      → has_key ((j, v) ∷ d) k ≡ true
  unfolding lookup
  has_key-cons j v d k h = ground arith

  has_key-keys : (d : Dict String F.Number) → All (λ k. has_key d k ≡ true) (keys d)
  unfolding keys
  has_key-keys [] = tt
  has_key-keys ((j, v) ∷ d) = (
    unfold lookup in ground arith,
    All-map (λ k. has_key d k ≡ true) (λ k. has_key ((j, v) ∷ d) k ≡ true) (keys d)
        (has_key-cons j v d) (has_key-keys d),
  )

  -- With a positive `rrf_k` no divisor is zero and every key that is ranked has its hit, so the fusion
  -- does not fail, and it returns at most three times `k` hits.
  pub rrf_merge_total :
      (ranked_lists : List (List (Hit F))) (k rrf_k : ℕ)
      → 0 < rrf_k
      → (hits : List (Hit F)) × (rrf_merge F text_of ranked_lists k rrf_k ≡ some hits)
        × (length hits ≤ k * 3)
  unfolding rrf_merge
  rrf_merge_total ranked_lists k rrf_k positive =
      let (t, counts, same) =
        count_lists_total rrf_k (record { scores = []; docs = [] }) ranked_lists positive
          (λ j. unfold lookup in refl) in
      let order : List String = sort_by (ranks_before F text_of t.scores) (keys t.scores) in
      let known : All (λ j. has_key t.docs j ≡ true) order =
        All-sort_by (ranks_before F text_of t.scores) (λ j. has_key t.docs j ≡ true) (keys t.scores)
          (All-map (λ j. has_key t.scores j ≡ true) (λ j. has_key t.docs j ≡ true) (keys t.scores)
            (λ j h. sym (same j) ∙ h) (has_key-keys t.scores)) in
      let (hits, e, len) =
        collect_total t (take (k * 3) order)
          (All-take (λ j. has_key t.docs j ≡ true) (k * 3) order known) in
      (hits, ground (arith, counts, e), omega (arith, len, length-take (k * 3) order))
