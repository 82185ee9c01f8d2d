-- ===== src/Tests/Similar.antt =====
-- Runs of wks/api/similar, and its theorems at concrete input.
use wks.Common.{
  ◌⊎◌, ℕ, ◌*◌, ◌≤◌, String, ◌≡◌, refl, true, false, none, some, List, [], ◌∷◌, arith, string_eq,
  nat_eq, length,
}
use wks.Common.Dict.{keys, has_key, insert, lookup}
use wks.Search.Service.{IndexConfig}
use wks.Similar.Candidates.{collect_candidate_scores, rank_documents}
use wks.Similar.Candidates.Laws.{collect_candidate_scores-le}
use wks.Similar.Matching.{greedy_matches}
use wks.Similar.Matching.Laws.{IsInjective, IsEligible, IsBlocked, greedy_matches-IsMaximal}
use wks.Similar.Labels.{SimilarConfig, CandidateMetrics, label_candidate}
use wks.Similar.Labels.Laws.{strength, label_candidate-Better}
use wks.Similar.Metrics.{DocChunk, preview, first_chars, candidate_metrics}
use wks.Common.Text.{words, join, text_length}
use wks.Tests.Monitor.{whole}

abbrev indexes : IndexConfig
indexes = record {
  default_index = "plain";
  default_strategy = none;
  strategies = [];
  indexes =
      ("plain", record { embedding_model = none })
      ∷ ("main", record { embedding_model = some "m" })
      ∷ [];
}

abbrev same : String → String
same text = text

abbrev rankings : List (List (String × ℕ))
rankings =
    (("q", 9) ∷ ("a", 8) ∷ ("a", 7) ∷ ("b", 6) ∷ ("c", 5) ∷ []) ∷ (("c", 4) ∷ ("b", 0) ∷ []) ∷ []

candidate_runs :
    keys (collect_candidate_scores whole same "q" 2 1 rankings []) ≡ "a" ∷ "b" ∷ "c" ∷ []
unfolding keys collect_candidate_scores rank_documents insert lookup string_eq
candidate_runs = refl

collect_candidate_scores-le_example :
    (length (keys (collect_candidate_scores whole same "q" 2 1 rankings [])) ≤ length rankings * 2)
    × (has_key (collect_candidate_scores whole same "q" 2 1 rankings []) "q" ≡ false)
collect_candidate_scores-le_example =
    collect_candidate_scores-le whole same "q" 2 1 rankings (omega arith)

abbrev similarity : List (List ℕ)
similarity = (9 ∷ 8 ∷ []) ∷ (7 ∷ 2 ∷ []) ∷ []

greedy_matches-IsMaximal_example :
    IsInjective whole (IsEligible whole similarity 3) (greedy_matches whole similarity 3)
    × ((whole.le 3 7 ≡ false)
        ⊎ IsBlocked whole
            (greedy_matches whole similarity 3)
            (record { score = 7; query_idx = 1; candidate_idx = 0 }))
greedy_matches-IsMaximal_example = greedy_matches-IsMaximal whole similarity 3 1 0

abbrev similar : SimilarConfig whole
similar = record {
  near_duplicate = record {
    min_matched_chunks = 2;
    min_coverage_query = 8;
    min_coverage_candidate = 8;
    min_mean_similarity = 8;
    min_order_consistency = 8;
  };
  same_document_family = record {
    min_coverage_query = 3;
    min_max_similarity = 8;
    min_stem_similarity = 7;
    support_min_stem_similarity = 5;
    support_min_path_similarity = 3;
    export_pair_min_stem_similarity = 9;
  };
  topic_related = record {
    min_matched_chunks = 1;
    min_coverage_query = 2;
    min_mean_similarity = 7;
    min_max_similarity = 8;
  };
  score_weights = record {
    mean_similarity = 1;
    coverage_query = 1;
    coverage_candidate = 1;
    order_consistency = 1;
    stem_similarity = 1;
    path_similarity = 1;
    seed_score = 1;
    seed_scale = 1;
  };
  export_pairs = (".md", ".pdf") ∷ [];
}

abbrev metrics : ℕ → CandidateMetrics whole
metrics n = record {
  matched_chunks = n;
  coverage_query = n;
  coverage_candidate = n;
  mean_similarity = n;
  max_similarity = n;
  order_consistency = n;
  stem_similarity = n;
  path_similarity = n;
}

label_runs :
    (label_candidate whole same similar ".md" ".pdf" "x" (some "x") (metrics 1)
      ≡ some "exact_duplicate")
    × (label_candidate whole same similar ".md" ".pdf" "x" none (metrics 9) ≡ some "near_duplicate")
    × (label_candidate whole same similar ".md" ".pdf" "x" none (metrics 7) ≡ some "topic_related")
    × (label_candidate whole same similar ".md" ".pdf" "x" none (metrics 1) ≡ none)
unfolding label_candidate string_eq
label_runs = (refl, refl, refl, refl)

order : (a b c : ℕ) → whole.le a b ≡ true → whole.le b c ≡ true → whole.le a c ≡ true
order a b c h k = ground (arith, h, k)

label_candidate-Better_example :
    strength (label_candidate whole same similar ".md" ".pdf" "x" none (metrics 7))
    ≤ strength (label_candidate whole same similar ".md" ".pdf" "x" none (metrics 9))
label_candidate-Better_example =
    label_candidate-Better whole order same similar ".md" ".pdf" "x" none (metrics 7) (metrics 9)
      (omega arith, refl, refl, refl, refl, refl, refl, refl)

abbrev chunk_at : ℕ → DocChunk
chunk_at i = record { chunk_index = i; text = "  one two   three four five  " }

average : List ℕ → ℕ
average xs = 9

preview_runs :
    (preview "  one two   three " 20 ≡ "one two three")
    × (preview "one two three four five" 16 ≡ "one two three...")
unfolding preview words join text_length first_chars nat_eq
preview_runs = (refl, refl)

metrics_runs :
    elim (candidate_metrics whole average same similar 3 16 chunk_at chunk_at ".md" ".pdf" 2 2
      similarity 3 9
      ("a" ∷ [])
      ("a" ∷ [])
      "x"
      (some "x")
      "c"
      1) [ none ↦ [] | some d ↦ d.label ∷ [] ]
    ≡ "exact_duplicate" ∷ []
unfolding candidate_metrics label_candidate string_eq
metrics_runs = refl
