-- ===== src/Common/Float.antt =====
-- Python's `float`: a type and the operations that the program calls. Nothing is assumed of them
-- but what a lemma lists.
use Prim.Native.Nat.{ℕ}
use mathlib.Core.Bool.{Bool}

pub record Float : Type 1 where
  pub Number : Type 0
  pub zero : Number
  pub one : Number
  pub hundred : Number
  pub add : Number → Number → Number
  pub mul : Number → Number → Number
  pub div : Number → Number → Number
  pub pow : Number → ℕ → Number
  pub of_ratio : ℕ → ℕ → Number
  pub round : ℕ → Number → Number
  pub lt : Number → Number → Bool
  pub le : Number → Number → Bool
