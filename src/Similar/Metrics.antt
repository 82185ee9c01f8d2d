-- ===== src/Similar/Metrics.antt =====
-- What is reported of a similar document: `_candidate_metrics` and `_preview` of
-- wks/api/similar/_similar_helpers.py. The matrix of similarities, the mean of a list, the similarity of
-- two stems and the checksum of the candidate are arguments.
use wks.Common.{
  ℕ, zero, suc, ◌-◌, String, ◌<>◌, not, Option, none, some, List, [], ◌∷◌, map, if◌then◌else◌, leb,
  length, take, sort_by, string_eq,
}
use wks.Common.Float.{Float}
use wks.Common.Text.{words, join, text_length}
use wks.Similar.Matching.{Pair, greedy_matches, order_consistency}
use wks.Similar.Labels.{
  SimilarConfig, CandidateMetrics, path_similarity, label_candidate, final_score,
}

-- `s[:n]`
unfoldable pub first_chars : ℕ → String → String
first_chars n String.[] = String.[]
first_chars zero (String.◌∷◌ c s) = String.[]
first_chars (suc n) (String.◌∷◌ c s) = String.◌∷◌ c (first_chars n s)

-- `_preview`; the limit is at least 16.
unfoldable pub preview : String → ℕ → String
preview text limit =
    let clean = join " " (words text) in
    if leb (text_length clean) limit then clean else first_chars (limit - 3) clean <> "..."

-- A chunk of a document, as far as the metrics read it.
pub record DocChunk : Type 0 where
  pub chunk_index : ℕ
  pub text : String

module _ (F : Float) where
  open F use {Number}

  -- An entry of the list `evidence`.
  pub record Evidence : Type 0 where
    pub query_chunk_index : ℕ
    pub candidate_chunk_index : ℕ
    pub score : Number
    pub query_text : String
    pub candidate_text : String

  -- `_CandidateMetrics`; `metrics` holds the numbers, which are rounded.
  pub record SimilarDocument : Type 0 where
    pub uri : String
    pub label : String
    pub score : Number
    pub metrics : CandidateMetrics F
    pub evidence : List Evidence

  -- `max(scores, default=0.0)`
  unfoldable pub max_from : Number → List Number → Number
  max_from best [] = best
  max_from best (x ∷ xs) = max_from (if F.lt best x then x else best) xs

  abbrev pub max_score : List Number → Number
  max_score [] = F.zero
  max_score (x ∷ xs) = max_from x xs

  abbrev pub mean_score : (List Number → Number) → List Number → Number
  mean_score mean [] = F.zero
  mean_score mean (x ∷ xs) = mean (x ∷ xs)

  abbrev pub round4 : Number → Number
  round4 x = F.round 4 x

  module _ (mean : List Number → Number) (lower : String → String)
      (similar_config : SimilarConfig F) (evidence_limit evidence_chars : ℕ)
      (query_chunk candidate_chunk : ℕ → DocChunk) where
    unfoldable pub evidence_of : List (Pair F) → List Evidence
    evidence_of matches =
        map
          (λ (p : Pair F). record {
            query_chunk_index = p.query_idx;
            candidate_chunk_index = (candidate_chunk p.candidate_idx).chunk_index;
            score = round4 p.score;
            query_text = preview (query_chunk p.query_idx).text evidence_chars;
            candidate_text = preview (candidate_chunk p.candidate_idx).text evidence_chars;
          })
          (take evidence_limit (sort_by (λ (a b : Pair F). not (F.lt a.score b.score)) matches))

    -- `matched_chunks / float(len(candidate_docs)) if candidate_docs else 0.0`
    abbrev pub coverage_of : ℕ → ℕ → Number
    coverage_of matched zero = F.zero
    coverage_of matched (suc n) = F.of_ratio matched (suc n)

    -- The numbers, from the matches. The numbers of chunks are those of the query, which has one, and of the
    -- candidate.
    unfoldable pub measure :
        ℕ → ℕ → Number → List String → List String → List (Pair F) → CandidateMetrics F
    measure query_chunks candidate_chunks stem_similarity query_segments candidate_segments
          matches =
        let scores = map (λ (p : Pair F). p.score) matches in
        record {
          matched_chunks = length matches;
          coverage_query = F.of_ratio (length matches) query_chunks;
          coverage_candidate = coverage_of (length matches) candidate_chunks;
          mean_similarity = mean_score mean scores;
          max_similarity = max_score scores;
          order_consistency = order_consistency F (λ i. (candidate_chunk i).chunk_index) matches;
          stem_similarity = stem_similarity;
          path_similarity = path_similarity F query_segments candidate_segments;
        }

    abbrev pub rounded : CandidateMetrics F → CandidateMetrics F
    rounded x = record {
      matched_chunks = x.matched_chunks;
      coverage_query = round4 x.coverage_query;
      coverage_candidate = round4 x.coverage_candidate;
      mean_similarity = round4 x.mean_similarity;
      max_similarity = round4 x.max_similarity;
      order_consistency = round4 x.order_consistency;
      stem_similarity = round4 x.stem_similarity;
      path_similarity = round4 x.path_similarity;
    }

    -- The suffixes are those of the two documents' paths.
    module _ (query_suffix candidate_suffix : String) where
      abbrev pub labelled :
          String
          → Number
          → CandidateMetrics F
          → List (Pair F)
          → Option String
          → Option SimilarDocument
      labelled uri initial_score x matches none = none
      labelled uri initial_score x matches (some label) = some (record {
        uri = uri;
        label = label;
        score = round4 (
            final_score F lower similar_config query_suffix candidate_suffix label initial_score x);
        metrics = rounded x;
        evidence = evidence_of matches;
      })

      -- `_candidate_metrics`: the document, if it gets a label.
      unfoldable pub candidate_metrics :
          ℕ
          → ℕ
          → List (List Number)
          → Number
          → Number
          → List String
          → List String
          → String
          → Option String
          → String
          → Number
          → Option SimilarDocument
      candidate_metrics query_chunks candidate_chunks similarity match_threshold stem_similarity
            query_segments candidate_segments checksum candidate_checksum candidate_uri
            initial_score =
          let matches = greedy_matches F similarity match_threshold in
          let x =
            measure query_chunks candidate_chunks stem_similarity query_segments candidate_segments
              matches in
          labelled candidate_uri initial_score x matches (
            label_candidate F lower similar_config query_suffix candidate_suffix checksum
              candidate_checksum x)
