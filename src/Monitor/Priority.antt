-- ===== src/Monitor/Priority.antt =====
-- Priorities: wks/api/monitor/find_priority_dir.py, _calculate_underscore_multiplier.py and
-- calculate_priority.py. Floats are a parameter.
pub mod Nearest
use Prim.Native.Char.{code}
use wks.Common.{
  ℕ, zero, suc, String, Bool, true, false, not, ◌&&◌, ◌||◌, Option, none, some, List, [], ◌∷◌, ◌==◌,
  list_eq, string_eq, nat_eq, if◌then◌else◌, length, ltb,
}
use wks.Common.Dict.{Dict, lookup, insert}
use wks.Common.Float.{Float}
use wks.Common.Text.{starts_with, is_empty}
use wks.FilePath.{FilePath, Process, name, parents, normalize_path, relative_to, suffix, stem}
use mathlib.Core.List.{reverse, foldl, tail}

-- The loop that counts leading underscores.
unfoldable pub leading_underscores : String → ℕ
leading_underscores String.[] = 0
leading_underscores (String.◌∷◌ c s) =
    let more = leading_underscores s in if code c == b'_' then suc more else 0

module _ (F : Float) where
  open F use {Number}

  -- `_PriorityWeightsConfig`
  pub record PriorityWeights : Type 0 where
    pub depth_multiplier : Number
    pub underscore_multiplier : Number
    pub only_underscore_multiplier : Number
    pub extension_weights : Dict String Number

  unfoldable pub calculate_underscore_multiplier : String → Number → Number → Number
  calculate_underscore_multiplier part underscore_multiplier only_underscore_multiplier =
      if part == "_"
      then only_underscore_multiplier
      else if leading_underscores part == 0
      then F.one
      else F.pow underscore_multiplier (leading_underscores part)

  -- `{normalize_path(k): v for k, v in priority_dirs.items()}`
  unfoldable pub resolved_priority : Process → Dict String Number → Dict FilePath Number
  resolved_priority env dirs = foldl (λ d e. insert (normalize_path env e.0) e.1 d) [] dirs

  -- `best_match is None or len(ancestor.parts) > len(best_match.parts)`
  abbrev pub is_better : Option FilePath → FilePath → Bool
  is_better none ancestor = true
  is_better (some best) ancestor = ltb (suc (length best)) (suc (length ancestor))

  -- One pass of the loop over the ancestors.
  abbrev pub consider :
      Dict FilePath Number → Option FilePath × Number → FilePath → Option FilePath × Number
  consider dirs (best_match, best_priority) ancestor = elim (lookup ancestor dirs) [
    | none ↦ (best_match, best_priority)
    | some value ↦
        if is_better best_match ancestor
        then (some ancestor, value)
        else (best_match, best_priority)
  ]

  unfoldable pub search_ancestors :
      Dict FilePath Number → List FilePath → Option FilePath × Number → Option FilePath × Number
  search_ancestors dirs [] best = best
  search_ancestors dirs (ancestor ∷ rest) best =
      search_ancestors dirs rest (consider dirs best ancestor)

  unfoldable pub find_priority_dir :
      Process → FilePath → Dict String Number → Option FilePath × Number
  find_priority_dir env path priority_dirs =
      search_ancestors (resolved_priority env priority_dirs) (path ∷ parents path) (none, F.hundred)

  -- One directory between the priority directory and the file.
  unfoldable pub weigh : PriorityWeights → Number → String → Number
  weigh w score component = F.mul (F.mul score w.depth_multiplier) (
      calculate_underscore_multiplier component w.underscore_multiplier
        w.only_underscore_multiplier)

  -- `relative_parts`; the `except` branch would be taken off the tree only.
  unfoldable pub relative_parts : FilePath → FilePath → List String
  relative_parts path priority_dir = elim (relative_to path priority_dir) [
    | none ↦ "/" ∷ reverse path
    | some below ↦ reverse below
  ]

  -- `parts[:-1]`
  abbrev pub all_but_last : List String → List String
  all_but_last [] = []
  all_but_last (x ∷ []) = []
  all_but_last (x ∷ y ∷ rest) = x ∷ all_but_last (y ∷ rest)

  -- `lower` is `str.lower`, which reads the Unicode tables.
  module _ (lower : String → String) where
    unfoldable pub calculate_priority :
        Process → FilePath → Dict String Number → PriorityWeights → Number
    calculate_priority env path priority_dirs w =
        elim ((find_priority_dir env path priority_dirs).0) [
          | none ↦ F.zero
          | some priority_dir ↦
              let base = (find_priority_dir env path priority_dirs).1 in
              let score = foldl (weigh w) base (all_but_last (relative_parts path priority_dir)) in
              let filename_stem = stem (name path) in
              let score' =
                if not (is_empty filename_stem) && starts_with filename_stem "_"
                then weigh w score filename_stem
                else score in
              F.mul score' (elim (lookup (lower (suffix (name path))) w.extension_weights) [
                | none ↦ F.one
                | some weight ↦ weight
              ])
        ]
