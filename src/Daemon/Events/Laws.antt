-- ===== src/Daemon/Events/Laws.antt =====
-- The paths that a round of the daemon syncs (wks/api/daemon/_child_main.py).
use wks.Common.{
  String, ◌≡◌, refl, Bool, false, not, ◌&&◌, ◌||◌, Option, none, some, List, [], ◌∷◌, ◌++◌, map,
  ◌==◌, contains, string_eq, list_eq, arith, if◌then◌else◌, drop_if, ◌∙◌,
}
use wks.Common.Dict.{Dict}
use wks.FilePath.{FilePath, Process, normalize_path}
use wks.Monitor.Explain.{FilterConfig}
use wks.Daemon.Events.{
  Pending, Plan, add, is_allowed, filtered, filtered_moves, add_allowed, is_moved_path, plan_move,
  plan_moves, make_plan, unless_idle, process_events, get_and_clear_events, no_events,
}

contains-append :
    (xs ys : List FilePath) (a : FilePath)
    → contains (xs ++ ys) a ≡ (contains xs a || contains ys a)
contains-append [] ys a = refl
contains-append (x ∷ xs) ys a = ground (arith, contains-append xs ys a)

contains-add :
    (x : FilePath) (xs : List FilePath) (a : FilePath)
    → contains (add x xs) a ≡ (a == x || contains xs a)
unfolding add
contains-add x xs a = ground (arith, contains-append xs (x ∷ []) a)

contains-drop_if :
    (p : FilePath → Bool) (xs : List FilePath) (a : FilePath)
    → contains (drop_if p xs) a ≡ (contains xs a && not (p a))
contains-drop_if p [] a = refl
contains-drop_if p (x ∷ xs) a = ground (arith, contains-drop_if p xs a)

module _ (env : Process) (wks_home : FilePath) (ignore_paths : List FilePath)
    (monitor_cfg : Option FilterConfig) where
  contains-add_allowed :
      (ps set : List FilePath) (a : FilePath)
      → contains (add_allowed env wks_home ignore_paths monitor_cfg ps set) a
        ≡ (contains set a || (contains ps a && is_allowed env wks_home monitor_cfg a))
  unfolding add_allowed
  contains-add_allowed [] set a = ground arith
  contains-add_allowed (p ∷ ps) set a =
      contains-add_allowed ps (if is_allowed env wks_home monitor_cfg p then add p set else set) a
      ∙ ground (arith, contains-add p set a)

  -- The two sides of the moves.
  abbrev pub sources : List (FilePath × FilePath) → List FilePath
  sources = map (λ (m : FilePath × FilePath). m.0)

  abbrev pub targets : List (FilePath × FilePath) → List FilePath
  targets = map (λ (m : FilePath × FilePath). m.1)

  contains-plan_moves :
      (ms : List (FilePath × FilePath)) (plan : Plan) (a : FilePath)
      → (contains (plan_moves env wks_home ignore_paths monitor_cfg ms plan).to_sync a ≡ (
          contains plan.to_sync a
          || (contains (targets ms) a && is_moved_path env wks_home ignore_paths monitor_cfg a)))
        × (contains (plan_moves env wks_home ignore_paths monitor_cfg ms plan).to_delete a ≡ (
            contains plan.to_delete a
            || (contains (sources ms) a && is_moved_path env wks_home ignore_paths monitor_cfg a)))
  unfolding plan_moves plan_move
  contains-plan_moves [] plan a = (ground arith, ground arith)
  contains-plan_moves ((src, dest) ∷ ms) plan a =
      let (synced, deleted) =
        contains-plan_moves ms (plan_move env wks_home ignore_paths monitor_cfg (src, dest) plan)
          a in
      (
        synced ∙ ground (arith, contains-add dest plan.to_sync a),
        deleted ∙ ground (arith, contains-add src plan.to_delete a),
      )

  -- A move is filtered out only if neither of its sides is of interest.
  contains-kept :
      (ms : List (FilePath × FilePath)) (a : FilePath)
      → ((contains
              (targets (drop_if (λ m. contains ignore_paths m.0 && contains ignore_paths m.1) ms))
              a
            && not (contains ignore_paths a))
          ≡ (contains (targets ms) a && not (contains ignore_paths a)))
        × ((contains
                (sources (drop_if (λ m. contains ignore_paths m.0 && contains ignore_paths m.1) ms))
                a
              && not (contains ignore_paths a))
            ≡ (contains (sources ms) a && not (contains ignore_paths a)))
  contains-kept [] a = (refl, refl)
  contains-kept (m ∷ ms) a =
      let (t, s) = contains-kept ms a in (ground (arith, t), ground (arith, s))

  -- Does the round sync this path, because it changed or because it is gone?
  abbrev pub syncs : Option Plan → FilePath → Bool
  syncs none a = false
  syncs (some plan) a = contains plan.to_sync a

  abbrev pub deletes : Option Plan → FilePath → Bool
  deletes none a = false
  deletes (some plan) a = contains plan.to_delete a

  Planned :
      List FilePath → List (FilePath × FilePath) → List FilePath → FilePath → Option Plan → Type 0
  Planned changed moves deleted a result =
      (syncs result a ≡ (
        (contains changed a && is_allowed env wks_home monitor_cfg a)
        || (contains (targets moves) a && is_moved_path env wks_home ignore_paths monitor_cfg a)))
      × (deletes result a ≡ (
          (contains deleted a && is_allowed env wks_home monitor_cfg a)
          || (contains (sources moves) a && is_moved_path env wks_home ignore_paths monitor_cfg a)))

  make_plan-Planned :
      (changed : List FilePath) (moves : List (FilePath × FilePath)) (deleted : List FilePath)
      → (a : FilePath)
      → Planned changed moves deleted a
          (some (make_plan env wks_home ignore_paths monitor_cfg changed moves deleted))
  unfolding make_plan Planned
  make_plan-Planned changed moves deleted a =
      let first : Plan = record {
        to_delete = [];
        to_sync = add_allowed env wks_home ignore_paths monitor_cfg changed [];
        link_moves = [];
      } in
      let (synced, gone) = contains-plan_moves moves first a in
      (
        synced ∙ ground (arith, contains-add_allowed changed [] a),
        contains-add_allowed deleted
              (plan_moves env wks_home ignore_paths monitor_cfg moves first).to_delete a
            ∙ ground (arith, gone),
      )

  unless_idle-Planned :
      (changed : List FilePath) (moves : List (FilePath × FilePath)) (deleted : List FilePath)
      → (a : FilePath)
      → Planned changed moves deleted a
          (unless_idle env wks_home ignore_paths monitor_cfg changed moves deleted)
  unless_idle-Planned [] [] [] a = unfold Planned in (refl, refl)
  unless_idle-Planned [] [] (d ∷ deleted) a = make_plan-Planned [] [] (d ∷ deleted) a
  unless_idle-Planned [] (m ∷ moves) deleted a = make_plan-Planned [] (m ∷ moves) deleted a
  unless_idle-Planned (c ∷ changed) moves deleted a =
      make_plan-Planned (c ∷ changed) moves deleted a

  -- The paths that were reported.
  abbrev pub normalized : List String → List FilePath
  normalized = map (λ p. normalize_path env p)

  abbrev pub normalized_moves : Dict String String → List (FilePath × FilePath)
  normalized_moves = map (λ m. (normalize_path env m.0, normalize_path env m.1))

  -- The paths that the program does not ignore and the rules allow.
  abbrev pub is_of_interest : FilePath → Bool
  is_of_interest a = not (contains ignore_paths a) && is_allowed env wks_home monitor_cfg a

  -- A round of the daemon syncs a path as changed just if it was reported as modified, as created or
  -- as the target of a move, and syncs it as gone just if it was reported as deleted or as the source
  -- of a move, both only where it is neither ignored nor excluded by the rules; and it forgets the
  -- events.
  pub process_events_lem :
      (s : Pending) (a : FilePath)
      → (syncs (process_events env wks_home ignore_paths monitor_cfg s).0 a ≡ (
          (contains (normalized s.modified) a
            || contains (normalized s.created) a
            || contains (targets (normalized_moves s.moved)) a)
          && is_of_interest a))
        × (deletes (process_events env wks_home ignore_paths monitor_cfg s).0 a ≡ (
            (contains (normalized s.deleted) a || contains (sources (normalized_moves s.moved)) a)
            && is_of_interest a))
        × ((process_events env wks_home ignore_paths monitor_cfg s).1 ≡ no_events)
  unfolding process_events Planned filtered filtered_moves get_and_clear_events
  process_events_lem s a =
      let (synced, gone) =
        unless_idle-Planned
          (filtered env wks_home ignore_paths s.modified
            ++ filtered env wks_home ignore_paths s.created)
          (filtered_moves env wks_home ignore_paths s.moved)
          (filtered env wks_home ignore_paths s.deleted) a in
      let (t, u) = contains-kept (normalized_moves s.moved) a in
      let m = contains-drop_if (contains ignore_paths) (normalized s.modified) a in
      let c = contains-drop_if (contains ignore_paths) (normalized s.created) a in
      let d = contains-drop_if (contains ignore_paths) (normalized s.deleted) a in
      let both =
        contains-append (filtered env wks_home ignore_paths s.modified)
          (filtered env wks_home ignore_paths s.created) a in
      (synced ∙ ground (arith, t, m, c, both), gone ∙ ground (arith, u, d), refl)
