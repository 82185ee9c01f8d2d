-- ===== src/Similar/Labels.antt =====
-- The labels and the final scores of similar documents: wks/api/similar/_similar_helpers.py and the
-- settings of wks/api/similar/SimilarConfig.py.
pub mod Laws
use wks.Common.{
  ℕ, ◌+◌, ◌-◌, String, Bool, true, false, ◌||◌, ◌&&◌, Option, none, some, List, [], ◌∷◌, ◌==◌,
  string_eq, contains, if◌then◌else◌, leb, length, count_if,
}
use wks.Common.Float.{Float}

module _ (F : Float) where
  open F use {Number}

  pub record NearDuplicateConfig : Type 0 where
    pub min_matched_chunks : ℕ
    pub min_coverage_query : Number
    pub min_coverage_candidate : Number
    pub min_mean_similarity : Number
    pub min_order_consistency : Number

  pub record SameDocumentFamilyConfig : Type 0 where
    pub min_coverage_query : Number
    pub min_max_similarity : Number
    pub min_stem_similarity : Number
    pub support_min_stem_similarity : Number
    pub support_min_path_similarity : Number
    pub export_pair_min_stem_similarity : Number

  pub record TopicRelatedConfig : Type 0 where
    pub min_matched_chunks : ℕ
    pub min_coverage_query : Number
    pub min_mean_similarity : Number
    pub min_max_similarity : Number

  pub record ScoreWeightsConfig : Type 0 where
    pub mean_similarity : Number
    pub coverage_query : Number
    pub coverage_candidate : Number
    pub order_consistency : Number
    pub stem_similarity : Number
    pub path_similarity : Number
    pub seed_score : Number
    pub seed_scale : Number

  pub record SimilarConfig : Type 0 where
    pub near_duplicate : NearDuplicateConfig
    pub same_document_family : SameDocumentFamilyConfig
    pub topic_related : TopicRelatedConfig
    pub score_weights : ScoreWeightsConfig
    pub export_pairs : List (String × String)

  -- What is measured of a candidate.
  pub record CandidateMetrics : Type 0 where
    pub matched_chunks : ℕ
    pub coverage_query : Number
    pub coverage_candidate : Number
    pub mean_similarity : Number
    pub max_similarity : Number
    pub order_consistency : Number
    pub stem_similarity : Number
    pub path_similarity : Number

  -- The share that two sets of path segments have in common, each listed without repetition.
  abbrev pub path_similarity : List String → List String → Number
  path_similarity [] candidate_segments = F.zero
  path_similarity (s ∷ query_segments) [] = F.zero
  path_similarity (s ∷ query_segments) (c ∷ candidate_segments) =
      let intersection = count_if (contains (c ∷ candidate_segments)) (s ∷ query_segments) in
      let union = (length (s ∷ query_segments) + length (c ∷ candidate_segments)) - intersection in
      F.of_ratio intersection union

  -- `frozenset({a, b}) == frozenset({c, d})`
  abbrev pub same_pair : String → String → String → String → Bool
  same_pair a b c d = (a == c && b == d) || (a == d && b == c)

  -- `lower` is `str.lower`; the suffixes are those of the two documents' paths.
  module _ (lower : String → String) (similar_config : SimilarConfig)
      (query_suffix candidate_suffix : String) where
    unfoldable pub is_export_pair : List (String × String) → Bool
    is_export_pair [] = false
    is_export_pair ((left, right) ∷ export_pairs) =
        same_pair (lower query_suffix) (lower candidate_suffix) (lower left) (lower right)
        || is_export_pair export_pairs

    abbrev pub probable_export_pair : Number → Bool
    probable_export_pair stem_similarity =
        F.le similar_config.same_document_family.export_pair_min_stem_similarity stem_similarity
        && is_export_pair similar_config.export_pairs

    abbrev pub is_exact : String → Option String → Bool
    is_exact checksum none = false
    is_exact checksum (some candidate_checksum) = candidate_checksum == checksum

    abbrev pub is_near : CandidateMetrics → Bool
    is_near x =
        let near = similar_config.near_duplicate in
        leb near.min_matched_chunks x.matched_chunks
        && F.le near.min_coverage_query x.coverage_query
        && F.le near.min_coverage_candidate x.coverage_candidate
        && F.le near.min_mean_similarity x.mean_similarity
        && F.le near.min_order_consistency x.order_consistency

    abbrev pub lineage_signal : CandidateMetrics → Bool
    lineage_signal x =
        let family = similar_config.same_document_family in
        F.le family.min_stem_similarity x.stem_similarity
        || probable_export_pair x.stem_similarity
        || (F.le family.support_min_stem_similarity x.stem_similarity
            && F.le family.support_min_path_similarity x.path_similarity)

    abbrev pub is_family : CandidateMetrics → Bool
    is_family x =
        let family = similar_config.same_document_family in
        lineage_signal x
        && F.le family.min_coverage_query x.coverage_query
        && F.le family.min_max_similarity x.max_similarity

    abbrev pub is_topic : CandidateMetrics → Bool
    is_topic x =
        let topic = similar_config.topic_related in
        leb topic.min_matched_chunks x.matched_chunks
        && F.le topic.min_coverage_query x.coverage_query
        && (F.le topic.min_mean_similarity x.mean_similarity
            || F.le topic.min_max_similarity x.max_similarity)

    -- The label of a candidate, if any, from the checksums and the metrics.
    unfoldable pub label_candidate : String → Option String → CandidateMetrics → Option String
    label_candidate checksum candidate_checksum x =
        if is_exact checksum candidate_checksum
        then some "exact_duplicate"
        else if is_near x
        then some "near_duplicate"
        else if is_family x
        then some "same_document_family"
        else if is_topic x
        then some "topic_related"
        else none

    -- Python's `min`.
    abbrev pub minimum : Number → Number → Number
    minimum a b = if F.lt b a then b else a

    unfoldable pub final_score : String → Number → CandidateMetrics → Number
    final_score label initial_score x =
        let weights = similar_config.score_weights in
        let seed = minimum (F.mul initial_score weights.seed_scale) F.one in
        let weighted =
          F.add
            (F.add
              (F.add
                (F.add
                  (F.add
                    (F.add (F.mul weights.mean_similarity x.mean_similarity)
                      (F.mul weights.coverage_query x.coverage_query))
                    (F.mul weights.coverage_candidate x.coverage_candidate))
                  (F.mul weights.order_consistency x.order_consistency))
                (F.mul weights.stem_similarity x.stem_similarity))
              (F.mul weights.path_similarity x.path_similarity))
            (F.mul weights.seed_score seed) in
        if label == "exact_duplicate" then F.one else minimum weighted (F.of_ratio 9999 10000)
