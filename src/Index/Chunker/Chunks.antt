-- ===== src/Index/Chunker/Chunks.antt =====
-- The chunks of a text (wks/api/index/_SlidingWindowChunker.py).
use wks.Common.{
  ℕ, zero, suc, ◌+◌, ◌-◌, ◌≤◌, ◌<◌, String, ◌≡◌, refl, ◌⊎◌, inl, inr, some, List, [], ◌∷◌, ◌++◌,
  map, arith, ltb, length, take, drop, Bool-cases, ltb→lt, ap,
}
use wks.Common.Text.{strip, join, word_count, is_empty}
use wks.Index.Chunker.{Chunk, window, next_start, add_chunk, chunk_loop, chunk_lines}
use wks.Index.Chunker.Windows.{
  window_bounds, window_limit, window_cost, next_start_bounds, cost_before,
}

module _ (max_tokens : ℕ) (lines : List String) (uri : String) where
  -- A chunk is the stripped text of the lines from `start` up to `end`, of which there is one at
  -- least; it counts their words, and these are at most `max_tokens` unless it is a single line.
  pub record IsChunk (index : ℕ) (c : Chunk) : Type 0 where
    pub start : ℕ
    pub end : ℕ
    pub ordered : start < end
    pub inside : end ≤ length lines
    pub body : c.text ≡ strip (join "" (take (end - start) (drop start lines)))
    pub counted :
        c.tokens + cost_before (map word_count lines) start ≡ cost_before (map word_count lines) end
    pub limited : (c.tokens ≤ max_tokens) ⊎ (end ≡ suc start)
    pub numbered : c.chunk_index ≡ index
    pub named : c.uri ≡ uri
    pub continued : c.is_continuation ≡ ltb 0 start

  -- The chunks of a list are numbered from `index` on.
  abbrev pub AreChunks : ℕ → List Chunk → Type 0
  AreChunks index [] = Unit
  AreChunks index (c ∷ chunks) = IsChunk index c × AreChunks (suc index) chunks

  AreChunks-push :
      (index : ℕ) (chunks : List Chunk) (c : Chunk)
      → AreChunks index chunks
      → IsChunk (index + length chunks) c
      → AreChunks index (chunks ++ c ∷ [])
  AreChunks-push index [] c h k = let e : index + 0 ≡ index = omega arith in (rw e at k, tt)
  AreChunks-push index (d ∷ chunks) c (h, hs) k =
      let e : index + suc (length chunks) ≡ suc index + length chunks = omega arith in
      (h, AreChunks-push (suc index) chunks c hs (rw e at k))

length-map : (lines : List String) → length (map word_count lines) ≡ length lines
length-map [] = refl
length-map (line ∷ lines) = ap suc (length-map lines)

module _ (max_tokens overlap_tokens : ℕ) (lines : List String) (uri : String) where
  abbrev line_tokens : List ℕ
  line_tokens = map word_count lines

  window_chunk :
      (start index : ℕ) (c : Chunk)
      → start < length lines
      → c ≡ record {
        text = strip (
            join "" (
              take
                ((window max_tokens overlap_tokens line_tokens start).1 - start)
                (drop start lines)));
        uri = uri;
        chunk_index = index;
        tokens = (window max_tokens overlap_tokens line_tokens start).0;
        is_continuation = ltb 0 start;
      }
      → IsChunk max_tokens lines uri index c
  window_chunk start index c h e = rw e (record {
    start = start;
    end = (window max_tokens overlap_tokens line_tokens start).1;
    ordered = (window_bounds max_tokens overlap_tokens line_tokens start inside).0;
    inside = omega (
      arith,
      length-map lines,
      (window_bounds max_tokens overlap_tokens line_tokens start inside).1,
    );
    body = refl;
    counted = window_cost line_tokens max_tokens overlap_tokens start;
    limited = elim (window_limit max_tokens overlap_tokens line_tokens start) [
      | inl fits ↦ inl fits
      | inr single ↦
          inr (
            omega (arith, single, window_bounds max_tokens overlap_tokens line_tokens start inside))
    ];
    numbered = refl;
    named = refl;
    continued = refl;
  })
    where
      inside : start < length line_tokens
      inside = omega (arith, length-map lines)

  add_chunk-AreChunks :
      (start : ℕ) (chunks : List Chunk)
      → start < length lines
      → AreChunks max_tokens lines uri 0 chunks
      → AreChunks max_tokens lines uri 0 (
          add_chunk max_tokens overlap_tokens lines uri start
            (window max_tokens overlap_tokens line_tokens start)
            chunks)
  unfolding add_chunk
  add_chunk-AreChunks start chunks h valid =
      elim (Bool-cases (
        is_empty (
          strip (
            join "" (
              take ((window max_tokens overlap_tokens line_tokens start).1 - start)
                (drop start lines)))))) [
                  | inl blank ↦ rw blank valid
                  | inr full ↦ rw full (
                      AreChunks-push max_tokens lines uri 0 chunks _ valid (
                        let z : 0 + length chunks ≡ length chunks = omega arith in
                        rw z (window_chunk start (length chunks) _ h refl)))
                ]

  -- Each round leaves fewer lines.
  shrinks :
      (start : ℕ)
      → start < length lines
      → length lines
          - next_start max_tokens overlap_tokens line_tokens start
              (window max_tokens overlap_tokens line_tokens start).1
        < length lines - start
  shrinks start h =
      let inside : start < length line_tokens = omega (arith, length-map lines) in
      omega (
        arith,
        next_start_bounds line_tokens max_tokens overlap_tokens start
            (window max_tokens overlap_tokens line_tokens start).1
            (window_bounds max_tokens overlap_tokens line_tokens start inside).0,
      )

  chunk_loop_total :
      (fuel start : ℕ) (chunks : List Chunk)
      → length lines - start < fuel
      → AreChunks max_tokens lines uri 0 chunks
      → (result : List Chunk) × (chunk_loop max_tokens overlap_tokens lines uri line_tokens fuel
            start chunks
          ≡ some result)
        × AreChunks max_tokens lines uri 0 result
  unfolding chunk_loop
  chunk_loop_total zero start chunks h valid = absurd (omega arith)
  chunk_loop_total (suc fuel) start chunks h valid = elim (Bool-cases (ltb start (length lines))) [
    | inr done ↦ (chunks, rw done, valid)
    | inl more ↦
        elim (Bool-cases
          (ltb (window max_tokens overlap_tokens line_tokens start).1 (length lines))) [
            | inr last ↦ (
              add_chunk max_tokens overlap_tokens lines uri start
                  (window max_tokens overlap_tokens line_tokens start) chunks,
              rw (more, last),
              add_chunk-AreChunks start chunks (ltb→lt _ _ more) valid,
            )
            | inl again ↦
                rw (more, again)
                  (chunk_loop_total fuel _ _ (omega (arith, h, shrinks start (ltb→lt _ _ more)))
                    (add_chunk-AreChunks start chunks (ltb→lt _ _ more) valid))
          ]
  ]

  -- On every text the chunker ends, with chunks that are numbered from 0; each is the stripped text
  -- of a range of lines, counts their words, and stays within the limit unless it is one line.
  pub chunk_lines_total :
      (result : List Chunk) × (chunk_lines max_tokens overlap_tokens lines uri ≡ some result)
      × AreChunks max_tokens lines uri 0 result
  unfolding chunk_lines
  chunk_lines_total = chunk_loop_total (suc (length lines)) 0 [] (omega arith) tt
