-- ===== src/Move/Laws.antt =====
-- The outcomes of a move (wks/services/mv.py).
use wks.Common.{
  ℕ, String, ◌≡◌, refl, ◌||◌, Bool, true, false, Option, none, some, List, ◌==◌, string_eq, arith,
  Option-cases, Bool-cases, inl, inr, subst, ◌⊎◌,
}
use wks.Common.Float.{Float}
use wks.Database.{Collection}
use wks.FilePath.{FilePath, Process, name, parent}
use wks.Uri.{uri_path, from_any}
use wks.Monitor.Explain.{explain_path}
use wks.Monitor.Sync.{NodeDoc, SyncConfig}
use wks.Search.Service.{FailureKind}
use wks.Move.Filename.{is_valid_filename}
use wks.Move.{
  MoveRequest, MoveResponse, Surroundings, World, is_always_allowed_source, validate_source,
  validate_destination, finish_move, or_move, move_paths, move_document,
}

abbrev pub is_runtime : Option FailureKind → Bool
is_runtime none = false
is_runtime (some FailureKind.config) = false
is_runtime (some FailureKind.validation) = false
is_runtime (some FailureKind.not_found) = false
is_runtime (some FailureKind.conflict) = false
is_runtime (some FailureKind.runtime) = true

-- A response that refuses, if there is one.
abbrev IsRefusal : Option MoveResponse → Type 0
IsRefusal none = Unit
IsRefusal (some r) = (r.success ≡ false) × (is_runtime r.failure_kind ≡ false)

module _ (F : Float) (C : Collection (NodeDoc F)) {Files Vault : Type 0}
    (S : Surroundings Files Vault) (env : Process) (wks_home : FilePath) (hostname : String)
    (lower unquote : String → String) (text_of : ℕ → String) (always_allow_sources : List FilePath)
    (cfg : SyncConfig F) where
  -- What has to hold of the files for a move.
  abbrev pub IsAllowed : FilePath → FilePath → Files → Type 0
  IsAllowed source_path dest_path files =
      ((S.file_system files).exists source_path ≡ true)
      × (S.git_root files source_path ≡ none)
      × ((is_always_allowed_source env always_allow_sources source_path
            || (explain_path env wks_home cfg.filter source_path).0)
          ≡ true)
      × ((name source_path == name dest_path || is_valid_filename S.is_decimal (name dest_path))
          ≡ true)
      × ((explain_path env wks_home cfg.filter (parent dest_path)).0 ≡ true)
      × ((S.file_system files).exists dest_path ≡ false)

  abbrev pub BothAllowed : Option FilePath → Option FilePath → Files → Type 0
  BothAllowed (some source_path) (some dest_path) files = IsAllowed source_path dest_path files
  BothAllowed (some source_path) none files = ⊥
  BothAllowed none dest_path files = ⊥

  -- What may come of a move: it is refused and nothing has changed; moving the files failed, and the
  -- database and the vault have not changed; or it was allowed and is made.
  abbrev pub Outcome :
      Option FilePath → Option FilePath → World F C S → MoveResponse × World F C S → Type 0
  Outcome source_path dest_path (files, s, v) (r, (files', s', v')) =
      ((r.success ≡ false)
        × (is_runtime r.failure_kind ≡ false)
        × (files' ≡ files)
        × (s' ≡ s)
        × (v' ≡ v))
      ⊎ ((r.success ≡ false)
          × (is_runtime r.failure_kind ≡ true)
          × BothAllowed source_path dest_path files
          × (s' ≡ s)
          × (v' ≡ v))
      ⊎ ((r.success ≡ true) × BothAllowed source_path dest_path files)

  source_lem :
      (source_path dest_path : FilePath) (files : Files)
      → validate_source F C S env wks_home hostname lower unquote text_of always_allow_sources cfg
          source_path dest_path files
        ≡ none
      → ((S.file_system files).exists source_path ≡ true)
        × (S.git_root files source_path ≡ none)
        × ((is_always_allowed_source env always_allow_sources source_path
              || (explain_path env wks_home cfg.filter source_path).0)
            ≡ true)
  unfolding validate_source
  source_lem source_path dest_path files h =
      (ground (arith, h), ground (arith, h), ground (arith, h))

  dest_lem :
      (source_path dest_path : FilePath) (files : Files)
      → validate_destination F C S env wks_home hostname lower unquote text_of always_allow_sources
          cfg source_path dest_path files
        ≡ none
      → ((name source_path == name dest_path || is_valid_filename S.is_decimal (name dest_path))
          ≡ true)
        × ((explain_path env wks_home cfg.filter (parent dest_path)).0 ≡ true)
        × ((S.file_system files).exists dest_path ≡ false)
  unfolding validate_destination
  dest_lem source_path dest_path files h = (ground (arith, h), ground (arith, h), ground (arith, h))

  source-IsRefusal :
      (source_path dest_path : FilePath) (files : Files)
      → IsRefusal (
          validate_source F C S env wks_home hostname lower unquote text_of always_allow_sources cfg
            source_path dest_path files)
  unfolding validate_source
  source-IsRefusal source_path dest_path files =
      elim (Bool-cases ((S.file_system files).exists source_path)) [
        | inr a ↦ rw a (refl, refl)
        | inl a ↦ rw a (elim (Option-cases (S.git_root files source_path)) [
          | inl g ↦
              rw g
                (elim (Bool-cases (
                  is_always_allowed_source env always_allow_sources source_path
                  || (explain_path env wks_home cfg.filter source_path).0)) [
                    | inl m ↦ rw m tt
                    | inr m ↦ rw m (refl, refl)
                  ])
          | inr (root, g) ↦ rw g (refl, refl)
        ])
      ]

  dest-IsRefusal :
      (source_path dest_path : FilePath) (files : Files)
      → IsRefusal (
          validate_destination F C S env wks_home hostname lower unquote text_of
            always_allow_sources cfg source_path dest_path files)
  unfolding validate_destination
  dest-IsRefusal source_path dest_path files =
      elim (Bool-cases
        (name source_path == name dest_path || is_valid_filename S.is_decimal (name dest_path))) [
          | inr n ↦ rw n (refl, refl)
          | inl n ↦
              rw n (elim (Bool-cases (explain_path env wks_home cfg.filter (parent dest_path)).0) [
                | inr m ↦ rw m (refl, refl)
                | inl m ↦ rw m (elim (Bool-cases ((S.file_system files).exists dest_path)) [
                  | inl e ↦ rw e (refl, refl)
                  | inr e ↦ rw e tt
                ])
              ])
        ]

  move_paths-Outcome :
      (request : MoveRequest) (now source_uri : String) (source_path : Option FilePath)
      (dest_uri : String) (dest_path : Option FilePath) (w : World F C S)
      → Outcome source_path dest_path w (
          move_paths F C S env wks_home hostname lower unquote text_of always_allow_sources cfg
            request now source_uri source_path dest_uri dest_path w)
  unfolding move_paths
  move_paths-Outcome request now source_uri none dest_uri dest_path w =
      inl (refl, refl, refl, refl, refl)
  move_paths-Outcome request now source_uri (some source_path) dest_uri none w =
      inl (refl, refl, refl, refl, refl)
  move_paths-Outcome request now source_uri (some source_path) dest_uri (some dest_path)
        (files, s, v) =
      check_source
        (validate_source F C S env wks_home hostname lower unquote text_of always_allow_sources cfg
          source_path dest_path files)
        (validate_destination F C S env wks_home hostname lower unquote text_of always_allow_sources
          cfg source_path dest_path files)
        refl refl (S.move_into source_path dest_path files)
    where
      finish :
          (moved : Option String × Files)
          → IsAllowed source_path dest_path files
          → Outcome
              (some source_path)
              (some dest_path)
              (files, s, v)
              (finish_move F C S env wks_home hostname lower unquote text_of always_allow_sources
                cfg request source_path dest_path now moved
                (s, v))
      finish (some e, files') allowed = inr (inl (refl, refl, allowed, refl, refl))
      finish (none, files') allowed = inr (inr (refl, allowed))

      check_source :
          (a b : Option MoveResponse)
          → validate_source F C S env wks_home hostname lower unquote text_of always_allow_sources
              cfg source_path dest_path files
            ≡ a
          → validate_destination F C S env wks_home hostname lower unquote text_of
              always_allow_sources cfg source_path dest_path files
            ≡ b
          → (moved : Option String × Files)
          → Outcome
              (some source_path)
              (some dest_path)
              (files, s, v)
              (or_move F C S env wks_home hostname lower unquote text_of always_allow_sources cfg a
                (or_move F C S env wks_home hostname lower unquote text_of always_allow_sources cfg
                  b
                  (finish_move F C S env wks_home hostname lower unquote text_of
                    always_allow_sources cfg request source_path dest_path now moved
                    (s, v))
                  (files, s, v))
                (files, s, v))
      check_source (some r) b ha hb moved =
          let (f, k) = subst IsRefusal ha (source-IsRefusal source_path dest_path files) in
          inl (f, k, refl, refl, refl)
      check_source none (some r) ha hb moved =
          let (f, k) = subst IsRefusal hb (dest-IsRefusal source_path dest_path files) in
          inl (f, k, refl, refl, refl)
      check_source none none ha hb moved =
          let (x, g, m) = source_lem source_path dest_path files ha in
          let (n, p, e) = dest_lem source_path dest_path files hb in finish moved (x, g, m, n, p, e)

  -- A move is refused, and then the files, the database and the vault are as before; or its last step on
  -- the files failed, and then the database and the vault are as before; or it is made. In the last two
  -- cases the two addresses were paths, the source existed and was not tracked by git, it was monitored or
  -- always allowed, the new name was the old one or a valid one, the folder of the destination was monitored,
  -- and the destination did not exist.
  pub move_document-Outcome :
      (now : String) (request : MoveRequest) (w : World F C S)
      → Outcome
          (uri_path env unquote (from_any env hostname none request.source))
          (uri_path env unquote (from_any env hostname none request.dest))
          w
          (move_document F C S env wks_home hostname lower unquote text_of always_allow_sources cfg
            now request w)
  unfolding move_document
  move_document-Outcome now request w = move_paths-Outcome request now _ _ _ _ w
