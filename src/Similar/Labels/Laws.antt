-- ===== src/Similar/Labels/Laws.antt =====
-- The order of labels, and the metrics (wks/api/similar/_similar_helpers.py).
use wks.Common.{
  ℕ, ◌≤◌, String, ◌≡◌, refl, Bool, true, Option, none, some, ◌==◌, string_eq, if◌then◌else◌, arith,
  Bool-cases, inl, inr, sym, subst,
}
use wks.Common.Float.{Float}
use wks.Similar.Labels.{
  SimilarConfig, CandidateMetrics, is_exact, is_near, is_family, is_topic, label_candidate,
}

-- The order of the labels, the strongest last.
abbrev pub strength : Option String → ℕ
strength none = 0
strength (some label) =
    if label == "exact_duplicate"
    then 4
    else if label == "near_duplicate"
    then 3
    else if label == "same_document_family"
    then 2
    else 1

abbrev first_of : Bool → Bool → Bool → Bool → ℕ
first_of e n f t = if e then 4 else if n then 3 else if f then 2 else if t then 1 else 0

first_of_mono :
    (e n f t n' f' t' : Bool)
    → (n ≡ true → n' ≡ true)
    → (f ≡ true → f' ≡ true)
    → (t ≡ true → t' ≡ true)
    → first_of e n f t ≤ first_of e n' f' t'
first_of_mono e n f t n' f' t' hn hf ht = ground arith

module _ (F : Float) where
  -- Metrics that are at least as good.
  abbrev pub IsBetter : CandidateMetrics F → CandidateMetrics F → Type 0
  IsBetter x y =
      (x.matched_chunks ≤ y.matched_chunks)
      × (F.le x.coverage_query y.coverage_query ≡ true)
      × (F.le x.coverage_candidate y.coverage_candidate ≡ true)
      × (F.le x.mean_similarity y.mean_similarity ≡ true)
      × (F.le x.max_similarity y.max_similarity ≡ true)
      × (F.le x.order_consistency y.order_consistency ≡ true)
      × (F.le x.stem_similarity y.stem_similarity ≡ true)
      × (F.le x.path_similarity y.path_similarity ≡ true)

  module _ (trans : (a b c : F.Number) → F.le a b ≡ true → F.le b c ≡ true → F.le a c ≡ true)
      (lower : String → String) (similar_config : SimilarConfig F)
      (query_suffix candidate_suffix : String) where
    abbrev near : CandidateMetrics F → Bool
    near = is_near F lower similar_config query_suffix candidate_suffix

    abbrev exact : String → Option String → Bool
    exact = is_exact F lower similar_config query_suffix candidate_suffix

    abbrev family : CandidateMetrics F → Bool
    family = is_family F lower similar_config query_suffix candidate_suffix

    abbrev topic : CandidateMetrics F → Bool
    topic = is_topic F lower similar_config query_suffix candidate_suffix

    abbrev label : String → Option String → CandidateMetrics F → Option String
    label = label_candidate F lower similar_config query_suffix candidate_suffix

    near-Better : (x y : CandidateMetrics F) → IsBetter x y → near x ≡ true → near y ≡ true
    near-Better x y (m, cq, cc, ms, xs, oc, ss, ps) h =
        let c = similar_config.near_duplicate in
        ground (
          arith,
          h,
          trans c.min_coverage_query x.coverage_query y.coverage_query,
          trans c.min_coverage_candidate x.coverage_candidate y.coverage_candidate,
          trans c.min_mean_similarity x.mean_similarity y.mean_similarity,
          trans c.min_order_consistency x.order_consistency y.order_consistency,
        )

    family-Better : (x y : CandidateMetrics F) → IsBetter x y → family x ≡ true → family y ≡ true
    family-Better x y (m, cq, cc, ms, xs, oc, ss, ps) h =
        let c = similar_config.same_document_family in
        ground (
          arith,
          h,
          trans c.min_coverage_query x.coverage_query y.coverage_query,
          trans c.min_max_similarity x.max_similarity y.max_similarity,
          trans c.min_stem_similarity x.stem_similarity y.stem_similarity,
          trans c.support_min_stem_similarity x.stem_similarity y.stem_similarity,
          trans c.support_min_path_similarity x.path_similarity y.path_similarity,
          trans c.export_pair_min_stem_similarity x.stem_similarity y.stem_similarity,
        )

    topic-Better : (x y : CandidateMetrics F) → IsBetter x y → topic x ≡ true → topic y ≡ true
    topic-Better x y (m, cq, cc, ms, xs, oc, ss, ps) h =
        let c = similar_config.topic_related in
        ground (
          arith,
          h,
          trans c.min_coverage_query x.coverage_query y.coverage_query,
          trans c.min_mean_similarity x.mean_similarity y.mean_similarity,
          trans c.min_max_similarity x.max_similarity y.max_similarity,
        )

    -- The strength is that of the first test that holds.
    strength-label :
        (checksum : String) (candidate_checksum : Option String) (x : CandidateMetrics F)
        → strength (label checksum candidate_checksum x) ≡ (
            if exact checksum candidate_checksum
            then 4
            else if near x
            then 3
            else if family x
            then 2
            else if topic x
            then 1
            else 0)
    unfolding label_candidate string_eq
    strength-label checksum candidate_checksum x =
        elim (Bool-cases (exact checksum candidate_checksum)) [
          | inl e ↦ rw e refl
          | inr e ↦ rw e (elim (Bool-cases (near x)) [
            | inl n ↦ rw n refl
            | inr n ↦ rw n (elim (Bool-cases (family x)) [
              | inl f ↦ rw f refl
              | inr f ↦ rw f (elim (Bool-cases (topic x)) [ inl t ↦ rw t refl | inr t ↦ rw t refl ])
            ])
          ])
        ]

    -- A candidate whose metrics are all at least as good as another's, with the same checksum and suffixes,
    -- gets a label at least as strong, if the order of the numbers is transitive.
    pub label_candidate-Better :
        (checksum : String) (candidate_checksum : Option String) (x y : CandidateMetrics F)
        → IsBetter x y
        → strength (
            label_candidate F lower similar_config query_suffix candidate_suffix checksum
              candidate_checksum x)
          ≤ strength (
              label_candidate F lower similar_config query_suffix candidate_suffix checksum
                candidate_checksum y)
    label_candidate-Better checksum candidate_checksum x y h =
        subst (λ a. a ≤ strength (label checksum candidate_checksum y))
          (sym (strength-label checksum candidate_checksum x))
          (subst
            (λ b. first_of (exact checksum candidate_checksum) (near x) (family x) (topic x) ≤ b)
            (sym (strength-label checksum candidate_checksum y))
            (first_of_mono _ _ _ _ _ _ _ (near-Better x y h) (family-Better x y h)
              (topic-Better x y h)))
