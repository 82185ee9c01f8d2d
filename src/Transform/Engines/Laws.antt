-- ===== src/Transform/Engines/Laws.antt =====
-- The engine that a route picks (wks/api/transform/_resolve_engine_selection.py).
use wks.Common.{
  String, ◌≡◌, refl, ◌⊎◌, inl, inr, Bool, true, false, Option, none, some, List, [], ◌∷◌, ◌++◌,
  string_eq, All, ap, Bool-cases,
}
use wks.Common.Dict.{Dict, lookup}
use wks.Transform.Engines.{
  Options, RouteData, FileFacts, EngineConfig, Engine, plain, route, Choice, engine_supports_file,
  merged_options, target_selection, select, fallback, try_target, resolve_route, missing_target,
  route_to_route,
}

module _ (O : Options) (lower : String → String) (known_type : String → Bool)
    (engines : Dict String (Engine O lower)) (engine_name : String) (file : FileFacts O lower)
    (overrides : Dict String O.Value) where
  abbrev pub supports : EngineConfig O lower → Bool
  supports target =
      engine_supports_file O lower target file (merged_options O lower target overrides)

  -- The engine of that name is there, is no route, and does not support the file.
  abbrev pub IsPassedOver : String → Type 0
  IsPassedOver name =
      (target : EngineConfig O lower) × (lookup name engines ≡ some (plain target))
      × (supports target ≡ false)

  -- The one that decides: what it is, and what is chosen.
  pub data Decides (name : String) : Choice O lower → Type 0 where
    absent : lookup name engines ≡ none → Decides name missing_target
    nested :
        (inner : RouteData)
        → lookup name engines ≡ some (route inner)
        → Decides name (route_to_route name)
    supported :
        (target : EngineConfig O lower)
        → lookup name engines ≡ some (plain target)
        → supports target ≡ true
        → Decides name (
            select O lower known_type
              (target_selection O lower known_type engine_name name target file overrides))

  -- Either the whole order is passed over and the fallback decides, or the first engine of the order
  -- that is not passed over does.
  abbrev pub RouteOutcome : RouteData → List String → Choice O lower → Type 0
  RouteOutcome config order choice =
      (All IsPassedOver order × (choice ≡ fallback O lower known_type engine_name config file))
      ⊎ ((before after : List String) × (name : String) × (order ≡ before ++ name ∷ after)
          × All IsPassedOver before
          × Decides name choice)

  RouteOutcome-cons :
      (config : RouteData) (name : String) (order : List String) (choice : Choice O lower)
      → IsPassedOver name
      → RouteOutcome config order choice
      → RouteOutcome config (name ∷ order) choice
  RouteOutcome-cons config name order choice passed (inl (all, e)) = inl ((passed, all), e)
  RouteOutcome-cons config name order choice passed (inr (before, after, first, e, all, decides)) =
      inr (name ∷ before, after, first, ap (◌∷◌ name) e, (passed, all), decides)

  try_target-RouteOutcome :
      (config : RouteData) (name : String) (rest : List String) (next : Choice O lower)
      → (found : Option (Engine O lower)) → lookup name engines ≡ found
      → RouteOutcome config rest next
      → RouteOutcome config
          (name ∷ rest)
          (try_target O lower known_type engine_name name found file overrides next)
  try_target-RouteOutcome config name rest next none e h = inr ([], rest, name, refl, tt, absent e)
  try_target-RouteOutcome config name rest next (some (route inner)) e h =
      inr ([], rest, name, refl, tt, nested inner e)
  try_target-RouteOutcome config name rest next (some (plain target)) e h =
      elim (Bool-cases (supports target)) [
        | inl fits ↦ rw fits (inr ([], rest, name, refl, tt, supported target e fits))
        | inr misfits ↦ rw misfits (RouteOutcome-cons config name rest next (target, e, misfits) h)
      ]

  -- A route tries its engines in order. Those before the one that decides are there, are no routes,
  -- and do not support the file; the one that decides is missing or is a route, which are errors, or
  -- is the first to support the file, and is chosen. If all are passed over, the fallback decides.
  pub resolve_route_lem :
      (config : RouteData) (order : List String)
      → RouteOutcome config order
          (resolve_route O lower known_type engines engine_name config file overrides order)
  unfolding resolve_route
  resolve_route_lem config [] = inl (tt, refl)
  resolve_route_lem config (name ∷ rest) =
      try_target-RouteOutcome config name rest
        (resolve_route O lower known_type engines engine_name config file overrides rest)
        (lookup name engines) refl (resolve_route_lem config rest)
