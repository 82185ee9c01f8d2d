-- ===== src/Index/Commands/Totals.antt =====
-- The loop over the indexes (wks/api/index/cmd_auto.py).
use wks.Common.{
  ℕ, suc, ◌+◌, String, ◌≡◌, Bool, Option, none, some, [], ◌∷◌, length, length-append, arith,
}
use wks.Common.Dict.{Dict}
use wks.Common.Float.{Float}
use wks.Database.{Collection}
use wks.FilePath.{FilePath, Process}
use wks.Index.Stores.{ChunkDoc, EmbeddingDoc}
use wks.Transform.Engines.{Options, FileFacts, Engine}
use wks.Index.Commands.{
  IndexTarget, IndexOutcome, AutoOutput, Transforms, World, AutoStep, skips, indexes_it, stops,
  note_outcome, carry_out, continue_with, auto_loop, none_indexed,
}

-- The indexes that an output mentions.
abbrev pub total : AutoOutput → ℕ
total out = length out.indexed + length out.skipped + length out.errors

-- An output that mentions so many, if there is one.
abbrev pub HasTotal : ℕ → Option AutoOutput → Type 0
HasTotal n none = Unit
HasTotal n (some out) = total out ≡ n

module _ (F : Float) (O : Options) (lower unquote : String → String) (known_type : String → Bool)
    (env : Process) (hostname : String) (exists : FilePath → Bool)
    (facts : FilePath → FileFacts O lower) (engines : Dict String (Engine O lower)) {T : Type 0}
    (A : Transforms T) (C : Collection ChunkDoc) (E : Collection EmbeddingDoc)
    (indexes : Dict String (IndexTarget F.Number)) (uri : String) where
  abbrev W : Type 0
  W = World F O lower unquote known_type env hostname exists facts engines A C E

  note_outcome-HasTotal :
      (name : String) (outcome : IndexOutcome × W) (out : AutoOutput)
      → HasTotal
          (suc (total out))
          (note_outcome F O lower unquote known_type env hostname exists facts engines A C E name
            outcome out).0
  note_outcome-HasTotal name (IndexOutcome.stored n checksum, w) out =
      omega (arith, length-append out.indexed ((name, (n, checksum)) ∷ []))
  note_outcome-HasTotal name (IndexOutcome.refused result, w) out =
      omega (arith, length-append out.errors (_ ∷ []))
  note_outcome-HasTotal name (IndexOutcome.crashed, w) out = tt

  carry_out-HasTotal :
      (name : String) (step : AutoStep) (out : AutoOutput) (w : W)
      → HasTotal
          (suc (total out))
          (carry_out F O lower unquote known_type env hostname exists facts engines A C E indexes
            uri name step out w).0
  carry_out-HasTotal name skips out w = omega (arith, length-append out.skipped (name ∷ []))
  carry_out-HasTotal name indexes_it out w = note_outcome-HasTotal name _ out
  carry_out-HasTotal name stops out w = tt

  continue_with-HasTotal :
      (n m : ℕ) (p : Option AutoOutput × W) (next : AutoOutput → W → Option AutoOutput × W)
      → HasTotal n p.0
      → ((out : AutoOutput) (w : W) → total out ≡ n → HasTotal m (next out w).0)
      → HasTotal m
          (continue_with F O lower unquote known_type env hostname exists facts engines A C E p
            next).0
  continue_with-HasTotal n m (none, w) next h k = tt
  continue_with-HasTotal n m (some out, w) next h k = k out w h

  loop-HasTotal :
      (priority : F.Number) (file_path : FilePath) (rest : Dict String (IndexTarget F.Number))
      (n : ℕ) (out : AutoOutput) (w : W)
      → total out + length rest ≡ n
      → HasTotal n
          (auto_loop F O lower unquote known_type env hostname exists facts engines A C E indexes
            uri priority file_path rest out w).0
  unfolding auto_loop
  loop-HasTotal priority file_path [] n out w h = omega (arith, h)
  loop-HasTotal priority file_path ((name, spec) ∷ rest) n out w h =
      continue_with-HasTotal (suc (total out)) n _ _ (carry_out-HasTotal name _ out w)
        (λ out' w' h'. loop-HasTotal priority file_path rest n out' w' (omega (arith, h, h')))

  -- Unless an exception ends the loop, the indexes in which a document is indexed, those that are skipped and
  -- the errors are together as many as the indexes that are configured.
  pub auto_loop-HasTotal :
      (priority : F.Number) (file_path : FilePath)
      (w : World F O lower unquote known_type env hostname exists facts engines A C E)
      → HasTotal
          (length indexes)
          (auto_loop F O lower unquote known_type env hostname exists facts engines A C E indexes
            uri priority file_path indexes
            (none_indexed F O lower unquote known_type env hostname exists facts engines A C E [])
            w).0
  auto_loop-HasTotal priority file_path w =
      loop-HasTotal priority file_path indexes (length indexes) _ w (omega arith)
