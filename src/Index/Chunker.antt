-- ===== src/Index/Chunker.antt =====
-- `_SlidingWindowChunker` (wks/api/index/_SlidingWindowChunker.py): windows of whole lines, at most
-- `max_tokens` words each where a line allows it, which overlap by at most `overlap_tokens` words.
pub mod Windows
pub mod Chunks
use wks.Common.{
  ℕ, zero, suc, ◌+◌, ◌-◌, String, ◌<>◌, Bool, Option, none, some, List, [], ◌∷◌, ◌++◌, map, ◌==◌,
  nat_eq, ltb, ◌&&◌, if◌then◌else◌, length, take, drop,
}
use wks.Common.Text.{split_lines, word_count, strip, join, is_empty}

-- `_Chunk` (wks/api/index/_Chunk.py)
pub record Chunk : Type 0 where
  pub text : String
  pub uri : String
  pub chunk_index : ℕ
  pub tokens : ℕ
  pub is_continuation : Bool

-- `line_tokens[i]`
abbrev pub get_or : List ℕ → ℕ → ℕ → ℕ
get_or [] i d = d
get_or (x ∷ xs) zero d = x
get_or (x ∷ xs) (suc i) d = get_or xs i d

module _ (max_tokens overlap_tokens : ℕ) where
  -- The inner loop: `costs` are the costs of the lines from `end` on. The result is `(used, end)`.
  unfoldable pub fill : ℕ → ℕ → ℕ → List ℕ → ℕ × ℕ
  fill start end used [] = (used, end)
  fill start end used (cost ∷ costs) =
      let more = fill start (suc end) (used + cost) costs in
      if ltb max_tokens (used + cost) && ltb start end then (used, end) else more

  unfoldable pub window : List ℕ → ℕ → ℕ × ℕ
  window line_tokens start = fill start start 0 (drop start line_tokens)

  -- The backward loop from `pos`: how far back the next window starts.
  unfoldable pub step_back : List ℕ → ℕ → ℕ → ℕ → ℕ → ℕ
  step_back line_tokens start zero restart accum = restart
  step_back line_tokens start (suc pos) restart accum =
      let cost = get_or line_tokens (suc pos) 0 in
      let more = step_back line_tokens start pos (suc pos) (accum + cost) in
      if ltb start (suc pos)
      then (if ltb overlap_tokens (accum + cost) then restart else more)
      else restart

  unfoldable pub next_start : List ℕ → ℕ → ℕ → ℕ
  next_start line_tokens start end =
      if ltb 0 overlap_tokens then step_back line_tokens start (end - 1) end 0 else end

  -- The chunk of a window, unless its text is blank.
  unfoldable pub add_chunk : List String → String → ℕ → ℕ × ℕ → List Chunk → List Chunk
  add_chunk lines uri start (used, end) chunks =
      let body = strip (join "" (take (end - start) (drop start lines))) in
      if is_empty body
      then chunks
      else chunks
        ++ record {
          text = body;
          uri = uri;
          chunk_index = length chunks;
          tokens = used;
          is_continuation = ltb 0 start;
        }
          ∷ []

  -- The outer loop on fuel; `none` means that the fuel ran out.
  unfoldable pub chunk_loop :
      List String → String → List ℕ → ℕ → ℕ → List Chunk → Option (List Chunk)
  chunk_loop lines uri line_tokens zero start chunks = none
  chunk_loop lines uri line_tokens (suc fuel) start chunks =
      let (used, end) = window line_tokens start in
      let chunks' = add_chunk lines uri start (used, end) chunks in
      let more = chunk_loop lines uri line_tokens fuel (next_start line_tokens start end) chunks' in
      if ltb start (length lines)
      then (if ltb end (length lines) then more else some chunks')
      else some chunks

  -- A round for every line, and one to see that no line is left.
  unfoldable pub chunk_lines : List String → String → Option (List Chunk)
  chunk_lines lines uri = chunk_loop lines uri (map word_count lines) (suc (length lines)) 0 []

  unfoldable pub chunk : String → String → Option (List Chunk)
  unfolding split_lines
  chunk text uri = chunk_lines (split_lines text) uri
