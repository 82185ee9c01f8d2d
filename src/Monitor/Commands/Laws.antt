-- ===== src/Monitor/Commands/Laws.antt =====
-- The priority commands and the check command (wks/api/monitor).
use wks.Common.Text.{starts_with, has_part}
use wks.Common.{
  ◌⊎◌, inl, inr, ◌<>◌, Bool-cases, append-nil, String, ◌≡◌, refl, Bool, true, false, Option, none,
  some, List, [], ◌∷◌, ◌++◌, ◌==◌, string_eq, arith, if◌then◌else◌, contains, ap, map, sym, subst,
}
use wks.Common.Dict.{Dict, lookup, insert, keys, lookup-insert}
use wks.Common.Float.{Float}
use wks.FilePath.{FilePath, Process, to_string}
use wks.Uri.{uri_path}
use wks.Monitor.Explain.{FilterConfig, explain_path}
use wks.Monitor.Priority.{PriorityWeights, calculate_priority}
use wks.Monitor.Commands.{
  resolved, find_key, find_matching_path_key, store_priority, cmd_priority_add, CheckOutput,
  cmd_check, check_uri, check_result, existence, symbol_of, trace_decisions,
}

module _ (env : Process) where
  -- No two keys stand for the same directory.
  abbrev pub IsUnambiguous : List String → Type 0
  IsUnambiguous [] = Unit
  IsUnambiguous (key ∷ rest) = (find_key env (resolved env key) rest ≡ none) × IsUnambiguous rest

  find_key-push :
      (c key : String) (ks : List String)
      → find_key env c ks ≡ none
      → (resolved env key == c) ≡ false
      → find_key env c (ks ++ key ∷ []) ≡ none
  unfolding find_key
  find_key-push c key [] h n = rw n refl
  find_key-push c key (k ∷ ks) h n = ground (arith, find_key-push c key ks)

  IsUnambiguous-push :
      (key : String) (ks : List String)
      → IsUnambiguous ks
      → find_key env (resolved env key) ks ≡ none
      → IsUnambiguous (ks ++ key ∷ [])
  unfolding find_key
  IsUnambiguous-push key [] u h = (refl, tt)
  IsUnambiguous-push key (k ∷ ks) (free, u) h = (
    find_key-push (resolved env k) key ks free (ground arith),
    IsUnambiguous-push key ks u (ground arith),
  )

  find_key-contains :
      (c key : String) (ks : List String) → find_key env c ks ≡ some key → contains ks key ≡ true
  unfolding find_key
  find_key-contains c key [] h = ground arith
  find_key-contains c key (k ∷ ks) h = ground (arith, find_key-contains c key ks)

  module _ {V : Type 0} where
    keys-insert-new :
        (key : String) (v : V) (d : Dict String V)
        → find_key env (resolved env key) (keys d) ≡ none
        → keys (insert key v d) ≡ keys d ++ key ∷ []
    unfolding keys insert find_key
    keys-insert-new key v [] h = refl
    keys-insert-new key v ((j, w) ∷ d) h = ground (arith, keys-insert-new key v d)

    keys-insert-old :
        (key : String) (v : V) (d : Dict String V)
        → contains (keys d) key ≡ true
        → keys (insert key v d) ≡ keys d
    unfolding keys insert
    keys-insert-old key v [] h = ground arith
    keys-insert-old key v ((j, w) ∷ d) h = ground (arith, keys-insert-old key v d)

  module _ (F : Float) (show : F.Number → String) where
    -- What a command on priorities leaves: the priority is stored, other keys keep theirs, and no
    -- directory has two entries.
    pub record IsStored (priority : F.Number) (dirs dirs' : Dict String F.Number)
        (path_stored : String) : Type 0 where
      pub stored : lookup path_stored dirs' ≡ some priority
      pub others : (j : String) → (j == path_stored) ≡ false → lookup j dirs' ≡ lookup j dirs
      pub unambiguous : IsUnambiguous (keys dirs')

    store_priority-IsStored :
        (path : String) (priority : F.Number) (dirs : Dict String F.Number) (found : Option String)
        → find_key env (resolved env path) (keys dirs) ≡ found
        → IsUnambiguous (keys dirs)
        → IsStored priority dirs
            (store_priority F show env path priority dirs found).1
            (store_priority F show env path priority dirs found).0.path_stored
    store_priority-IsStored path priority dirs none e u = record {
      stored = ground (arith, lookup-insert path path priority dirs);
      others = λ j h. ground (arith, lookup-insert j path priority dirs);
      unambiguous =
          rw (keys-insert-new path priority dirs e) (IsUnambiguous-push path (keys dirs) u e);
    }
    store_priority-IsStored path priority dirs (some key) e u = record {
      stored = ground (arith, lookup-insert key key priority dirs);
      others = λ j h. ground (arith, lookup-insert j key priority dirs);
      unambiguous =
          rw
            (keys-insert-old key priority dirs
              (find_key-contains (resolved env path) key (keys dirs) e))
            u;
    }

    -- Setting a priority in a dictionary with one entry for each directory stores it under the key
    -- that the output names, leaves the priorities of all other keys as they are, and keeps one
    -- entry for each directory, however its path is written.
    pub cmd_priority_add-IsStored :
        (path : String) (priority : F.Number) (dirs : Dict String F.Number)
        → IsUnambiguous (keys dirs)
        → IsStored priority dirs
            (cmd_priority_add F show env path priority dirs).1
            (cmd_priority_add F show env path priority dirs).0.path_stored
    unfolding cmd_priority_add find_matching_path_key
    cmd_priority_add-IsStored path priority dirs u =
        store_priority-IsStored (resolved env path) priority dirs
          (find_key env (resolved env (resolved env path)) (keys dirs)) refl u

  module _ (F : Float) (wks_home : FilePath) (show : F.Number → String)
      (lower unquote : String → String) (cfg : FilterConfig) (dirs : Dict String F.Number)
      (weights : PriorityWeights F) (exists : FilePath → Bool) where
    abbrev pub check : String → CheckOutput F env wks_home
    check = cmd_check F env wks_home show lower unquote cfg dirs weights exists

    -- The symbol of a line of the trace.
    abbrev Marks : String → String → Type 0
    Marks message symbol =
        ((starts_with (lower message) "excluded" ≡ true) × (symbol ≡ "✗"))
        ⊎ ((starts_with (lower message) "excluded" ≡ false)
            × (symbol ≡ "✓")
            × ((has_part (lower message) "override" ≡ true)
                ⊎ (starts_with (lower message) "included" ≡ true)))
        ⊎ ((starts_with (lower message) "excluded" ≡ false)
            × (symbol ≡ "•")
            × (has_part (lower message) "override" ≡ false)
            × (starts_with (lower message) "included" ≡ false))

    -- The decisions are the lines of the trace with their symbols, and then the last ones.
    abbrev Lists : List String → List (String × String) → List (String × String) → Type 0
    Lists [] last decisions = decisions ≡ last
    Lists (line ∷ trace) last [] = ⊥
    Lists (line ∷ trace) last ((symbol, message) ∷ decisions) =
        (message ≡ line) × Marks line symbol × Lists trace last decisions

    abbrev existence_line : Bool → FilePath → String × String
    existence_line true path = ("✓", "Path exists: " <> to_string path)
    existence_line false path =
        ("⚠", "Path does not exist (checking as if it did): " <> to_string path)

    -- The decision on the priority of a path that is monitored.
    abbrev priority_line : Bool → F.Number → List (String × String)
    priority_line true priority = ("✓", "Priority calculated: " <> show priority) ∷ []
    priority_line false priority = []

    -- A verdict as the command reports it.
    pub record Reports (path : FilePath) (allowed : Bool) (trace : List String)
        (out : CheckOutput F env wks_home) : Type 0 where
      pub named : out.path ≡ to_string path
      pub monitored : out.is_monitored ≡ allowed
      pub succeeds : out.success ≡ allowed
      pub ranked :
          out.priority
          ≡ (if allowed then some (calculate_priority F lower env path dirs weights) else none)
      pub traced : List (String × String)
      pub decided : out.decisions ≡ existence_line (exists path) path ∷ traced
      pub listed :
          Lists trace
            (priority_line allowed (calculate_priority F lower env path dirs weights))
            traced

    existence-line :
        (found : Bool) (path : FilePath)
        → existence F env wks_home show lower unquote found path ≡ existence_line found path
    existence-line true path = refl
    existence-line false path = refl

    symbol_of-Marks : (m : String) → Marks m (symbol_of F env wks_home show lower unquote m)
    unfolding symbol_of
    symbol_of-Marks m = elim (Bool-cases (starts_with (lower m) "excluded")) [
      | inl e ↦ inl (e, ground arith)
      | inr e ↦ elim (Bool-cases (has_part (lower m) "override")) [
        | inl o ↦ inr (inl (e, ground arith, inl o))
        | inr o ↦ elim (Bool-cases (starts_with (lower m) "included")) [
          | inl i ↦ inr (inl (e, ground arith, inr i))
          | inr i ↦ inr (inr (e, ground arith, o, i))
        ]
      ]
    ]

    traced-Lists :
        (trace : List String) (last : List (String × String))
        → Lists trace last
            (map (λ m. (symbol_of F env wks_home show lower unquote m, m)) trace ++ last)
    traced-Lists [] last = refl
    traced-Lists (m ∷ trace) last = (refl, symbol_of-Marks m, traced-Lists trace last)

    check_result-Reports :
        (path : FilePath) (allowed : Bool) (trace : List String)
        → Reports path allowed trace (
            check_result F env wks_home show lower unquote path allowed trace
              (existence F env wks_home show lower unquote (exists path) path
                ∷ trace_decisions F env wks_home show lower unquote trace)
              (calculate_priority F lower env path dirs weights))
    check_result-Reports path true trace = record {
      named = refl;
      monitored = refl;
      succeeds = refl;
      ranked = refl;
      traced =
          trace_decisions F env wks_home show lower unquote trace
          ++ priority_line true (calculate_priority F lower env path dirs weights);
      decided =
          ap
            (λ line.
              line
              ∷ (trace_decisions F env wks_home show lower unquote trace
                  ++ priority_line true (calculate_priority F lower env path dirs weights)))
            (existence-line (exists path) path);
      listed = traced-Lists trace _;
    }
    check_result-Reports path false trace = record {
      named = refl;
      monitored = refl;
      succeeds = refl;
      ranked = refl;
      traced = trace_decisions F env wks_home show lower unquote trace;
      decided =
          ap (λ line. line ∷ trace_decisions F env wks_home show lower unquote trace)
            (existence-line (exists path) path);
      listed = subst (Lists trace []) (append-nil _) (traced-Lists trace []);
    }

    -- For a file address the command says that the path is monitored just if `explain_path` does, and
    -- gives its priority just then; its decisions are the line on the existence of the path, the
    -- lines of the trace in their order with the symbols that their words ask for, and
    -- the line on the priority where there is one.
    pub cmd_check_lem :
        (uri : String) (path : FilePath)
        → uri_path env unquote uri ≡ some path
        → Reports path
            (explain_path env wks_home cfg path).0
            (explain_path env wks_home cfg path).1
            (check uri)
    unfolding cmd_check
    cmd_check_lem uri path e =
        subst
          (λ found.
            Reports path (explain_path env wks_home cfg path).0
              (explain_path env wks_home cfg path).1
              (check_uri F env wks_home show lower unquote cfg dirs weights exists uri found))
          (sym e)
          (check_result-Reports path (explain_path env wks_home cfg path).0
            (explain_path env wks_home cfg path).1)
