-- ===== src/Index/Chunker/Windows.antt =====
-- The windows of the chunker (wks/api/index/_SlidingWindowChunker.py).
use wks.Common.{
  ℕ, zero, suc, ◌+◌, ◌-◌, ◌≤◌, ◌<◌, ◌≡◌, refl, ◌⊎◌, inl, inr, List, [], ◌∷◌, arith, ltb, length,
  drop, length-drop, Bool-cases,
}
use wks.Index.Chunker.{get_or, fill, window, step_back, next_start}

module _ (max_tokens overlap_tokens : ℕ) where
  fill-le :
      (start end used : ℕ) (costs : List ℕ)
      → (end ≤ (fill max_tokens overlap_tokens start end used costs).1)
        × ((fill max_tokens overlap_tokens start end used costs).1 ≤ end + length costs)
  unfolding fill
  fill-le start end used [] = omega arith
  fill-le start end used (cost ∷ costs) =
      ground (arith, fill-le start (suc end) (used + cost) costs)

  fill_first :
      (start used : ℕ) (costs : List ℕ)
      → 0 < length costs
      → start < (fill max_tokens overlap_tokens start start used costs).1
  unfolding fill
  fill_first start used [] h = absurd (omega arith)
  fill_first start used (cost ∷ costs) h =
      ground (arith, fill-le start (suc start) (used + cost) costs)

  -- A window that starts before the end of the text takes a line, and no line past the end.
  pub window_bounds :
      (line_tokens : List ℕ) (start : ℕ)
      → start < length line_tokens
      → (start < (window max_tokens overlap_tokens line_tokens start).1)
        × ((window max_tokens overlap_tokens line_tokens start).1 ≤ length line_tokens)
  unfolding window
  window_bounds line_tokens start h = (
    fill_first start 0 (drop start line_tokens) (omega (arith, length-drop start line_tokens)),
    omega (arith, fill-le start start 0 (drop start line_tokens), length-drop start line_tokens),
  )

  -- Past its first line a window stops at the limit.
  fill_limit :
      (start end used : ℕ) (costs : List ℕ)
      → start < end
      → (used ≤ max_tokens) ⊎ (end ≡ suc start)
      → ((fill max_tokens overlap_tokens start end used costs).0 ≤ max_tokens)
        ⊎ ((fill max_tokens overlap_tokens start end used costs).1 ≡ suc start)
  unfolding fill
  fill_limit start end used [] h k = k
  fill_limit start end used (cost ∷ costs) h k = elim (Bool-cases (ltb max_tokens (used + cost))) [
    | inl over ↦ ground (arith, k)
    | inr fits ↦
        ground
          (arith, fill_limit start (suc end) (used + cost) costs (omega arith) (inl (ground arith)))
  ]

  fill_limit_first :
      (start : ℕ) (costs : List ℕ)
      → ((fill max_tokens overlap_tokens start start 0 costs).0 ≤ max_tokens)
        ⊎ ((fill max_tokens overlap_tokens start start 0 costs).1 ≤ suc start)
  unfolding fill
  fill_limit_first start [] = inl (omega arith)
  fill_limit_first start (cost ∷ costs) =
      ground (arith, fill_limit start (suc start) (0 + cost) costs (omega arith) (inr refl))

  -- A window costs at most `max_tokens`, or it is a single line.
  pub window_limit :
      (line_tokens : List ℕ) (start : ℕ)
      → ((window max_tokens overlap_tokens line_tokens start).0 ≤ max_tokens)
        ⊎ ((window max_tokens overlap_tokens line_tokens start).1 ≤ suc start)
  unfolding window
  window_limit line_tokens start = fill_limit_first start (drop start line_tokens)

module _ (line_tokens : List ℕ) where
  -- What the lines before `n` cost.
  abbrev pub cost_before : ℕ → ℕ
  cost_before zero = 0
  cost_before (suc n) = cost_before n + get_or line_tokens n 0

  module _ (max_tokens overlap_tokens : ℕ) where
    -- The next window starts behind the start of this one, and what the two share costs at most
    -- `overlap_tokens`.
    step_back_bounds :
        (start pos accum : ℕ)
        → start < suc pos
        → accum ≤ overlap_tokens
        → (start < step_back max_tokens overlap_tokens line_tokens start pos (suc pos) accum)
          × (step_back max_tokens overlap_tokens line_tokens start pos (suc pos) accum ≤ suc pos)
          × (accum + cost_before (suc pos)
              ≤ overlap_tokens
                + cost_before
                    (step_back max_tokens overlap_tokens line_tokens start pos (suc pos) accum))
    unfolding step_back
    step_back_bounds start zero accum h k = omega arith
    step_back_bounds start (suc pos) accum h k =
        ground (arith, step_back_bounds start pos (accum + get_or line_tokens (suc pos) 0))

get_or-drop : (n i : ℕ) (xs : List ℕ) → get_or (drop n xs) i 0 ≡ get_or xs (n + i) 0
get_or-drop zero i xs = let e : zero + i ≡ i = omega arith in rw e
get_or-drop (suc n) i [] = refl
get_or-drop (suc n) i (x ∷ xs) =
    let e : suc n + i ≡ suc (n + i) = omega arith in rw e (get_or-drop n i xs)

module _ (line_tokens : List ℕ) (max_tokens overlap_tokens : ℕ) where
  -- After a window from `start` to `end`, the next one starts behind `start` and at `end` or before
  -- it, so that no line is passed over, and the lines that the two windows share cost at most
  -- `overlap_tokens`.
  pub next_start_bounds :
      (start end : ℕ)
      → start < end
      → (start < next_start max_tokens overlap_tokens line_tokens start end)
        × (next_start max_tokens overlap_tokens line_tokens start end ≤ end)
        × (cost_before line_tokens end
            ≤ overlap_tokens
              + cost_before line_tokens
                  (next_start max_tokens overlap_tokens line_tokens start end))
  unfolding next_start
  next_start_bounds start zero h = absurd (omega arith)
  next_start_bounds start (suc pos) h =
      let e : suc pos - 1 ≡ pos = omega arith in
      rw e (ground (arith, step_back_bounds line_tokens max_tokens overlap_tokens start pos 0))

  fill_cost :
      (start end used : ℕ) (costs : List ℕ)
      → ((i : ℕ) → get_or costs i 0 ≡ get_or line_tokens (end + i) 0)
      → used + cost_before line_tokens start ≡ cost_before line_tokens end
      → (fill max_tokens overlap_tokens start end used costs).0 + cost_before line_tokens start
        ≡ cost_before line_tokens (fill max_tokens overlap_tokens start end used costs).1
  unfolding fill
  fill_cost start end used [] same h = h
  fill_cost start end used (cost ∷ costs) same h =
      ground (arith, fill_cost start (suc end) (used + cost) costs shifted more)
    where
      shifted : (i : ℕ) → get_or costs i 0 ≡ get_or line_tokens (suc end + i) 0
      shifted i = let e : suc end + i ≡ end + suc i = omega arith in rw e (same (suc i))

      here : cost ≡ get_or line_tokens end 0
      here = let e : end + 0 ≡ end = omega arith in rw e at (same 0)

      more : used + cost + cost_before line_tokens start ≡ cost_before line_tokens (suc end)
      more = omega (arith, here)

  -- The cost that a window reports is that of its lines.
  pub window_cost :
      (start : ℕ)
      → (window max_tokens overlap_tokens line_tokens start).0 + cost_before line_tokens start
        ≡ cost_before line_tokens (window max_tokens overlap_tokens line_tokens start).1
  unfolding window
  window_cost start =
      fill_cost start start 0 (drop start line_tokens) (λ i. get_or-drop start i line_tokens)
        (omega arith)
