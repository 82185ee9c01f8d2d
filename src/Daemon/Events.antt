-- ===== src/Daemon/Events.antt =====
-- `_EventHandler` (wks/api/daemon/_EventHandler.py) and `process_events` of
-- wks/api/daemon/_child_main.py. A set is a list without duplicates. Every handler runs under the
-- lock, so events are handled one after the other.
pub mod Laws
use wks.Common.{
  String, Bool, true, false, not, ◌&&◌, ◌||◌, Option, none, some, List, [], ◌∷◌, ◌++◌, map, ◌==◌,
  contains, Eq, string_eq, list_eq, if◌then◌else◌, drop_if,
}
use wks.Common.Dict.{Dict, insert}
use wks.FilePath.{FilePath, Process, normalize_path}
use wks.Monitor.Explain.{FilterConfig, explain_path}

-- The state of the handler.
pub record Pending : Type 0 where
  pub modified : List String
  pub created : List String
  pub deleted : List String
  pub moved : Dict String String

abbrev pub no_events : Pending
no_events = record { modified = []; created = []; deleted = []; moved = [] }

-- `s.add(x)`
unfoldable pub add {ℓ} : {A : Type ℓ} ⦃e : Eq A⦄ → A → List A → List A
add x xs = if contains xs x then xs else xs ++ x ∷ []

-- What the observer reports; the first argument is `event.is_directory`.
pub data Event : Type 0 where
  modified_event created_event deleted_event : Bool → String → Event
  moved_event : Bool → String → String → Event

-- The four handlers.
unfoldable pub handle : Event → Pending → Pending
handle (modified_event is_directory src) s =
    if is_directory then s else record s { modified = add src s.modified }
handle (created_event is_directory src) s =
    if is_directory then s else record s { created = add src s.created }
handle (deleted_event is_directory src) s =
    if is_directory then s else record s { deleted = add src s.deleted }
handle (moved_event is_directory src dest) s =
    if is_directory then s else record s { moved = insert src dest s.moved }

unfoldable pub get_and_clear_events : Pending → Pending × Pending
get_and_clear_events s = (s, no_events)

-- What `process_events` decides: the paths to sync because they are gone, the paths to sync because
-- they changed, and the moves that links follow.
pub record Plan : Type 0 where
  pub to_delete : List FilePath
  pub to_sync : List FilePath
  pub link_moves : List (FilePath × FilePath)

module _ (env : Process) (wks_home : FilePath) where
  -- `monitor_cfg is None or explain_path(monitor_cfg, path)[0]`
  unfoldable pub is_allowed : Option FilterConfig → FilePath → Bool
  is_allowed none path = true
  is_allowed (some cfg) path = (explain_path env wks_home cfg path).0

  -- `[normalize_path(p) for p in paths if normalize_path(p) not in ignore_paths]`
  unfoldable pub filtered : List FilePath → List String → List FilePath
  filtered ignore_paths paths =
      drop_if (λ p. contains ignore_paths p) (map (λ p. normalize_path env p) paths)

  unfoldable pub filtered_moves : List FilePath → Dict String String → List (FilePath × FilePath)
  filtered_moves ignore_paths moves =
      drop_if (λ m. contains ignore_paths m.0 && contains ignore_paths m.1)
        (map (λ m. (normalize_path env m.0, normalize_path env m.1)) moves)

  module _ (ignore_paths : List FilePath) (monitor_cfg : Option FilterConfig) where
    -- The loop over modified and created paths, and the one over deleted paths.
    unfoldable pub add_allowed : List FilePath → List FilePath → List FilePath
    add_allowed [] set = set
    add_allowed (p ∷ ps) set = add_allowed ps (if is_allowed monitor_cfg p then add p set else set)

    -- `path not in ignore_paths and (monitor_cfg is None or explain_path(monitor_cfg, path)[0])`
    abbrev pub is_moved_path : FilePath → Bool
    is_moved_path p = not (contains ignore_paths p) && is_allowed monitor_cfg p

    -- The body of the loop over moves.
    unfoldable pub plan_move : FilePath × FilePath → Plan → Plan
    plan_move (src, dest) plan = record {
      to_delete = if is_moved_path src then add src plan.to_delete else plan.to_delete;
      to_sync = if is_moved_path dest then add dest plan.to_sync else plan.to_sync;
      link_moves = plan.link_moves ++ (src, dest) ∷ [];
    }

    unfoldable pub plan_moves : List (FilePath × FilePath) → Plan → Plan
    plan_moves [] plan = plan
    plan_moves (m ∷ ms) plan = plan_moves ms (plan_move m plan)

    -- From the log message on.
    unfoldable pub make_plan : List FilePath → List (FilePath × FilePath) → List FilePath → Plan
    make_plan changed moves deleted =
        let plan =
          plan_moves moves
            (record { to_delete = []; to_sync = add_allowed changed []; link_moves = [] }) in
        record plan { to_delete = add_allowed deleted plan.to_delete }

    -- `if not (filtered_modified or ... or filtered_moved): return`
    abbrev pub unless_idle :
        List FilePath → List (FilePath × FilePath) → List FilePath → Option Plan
    unless_idle [] [] [] = none
    unless_idle changed moves deleted = some (make_plan changed moves deleted)

    -- One round of the daemon: what it decides, and the handler's state afterwards.
    unfoldable pub process_events : Pending → Option Plan × Pending
    unfolding get_and_clear_events
    process_events s =
        let (events, cleared) = get_and_clear_events s in
        (
          unless_idle
              (filtered ignore_paths events.modified ++ filtered ignore_paths events.created)
              (filtered_moves ignore_paths events.moved) (filtered ignore_paths events.deleted),
          cleared,
        )
