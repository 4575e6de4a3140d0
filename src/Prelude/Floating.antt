-- ===== src/Prelude/Floating.antt =====
-- `double`: the operations the sources use. Nothing is assumed of them here, so what is proved over them
-- holds with rounding, infinities and values that are not numbers.
use Prim.Native.Nat.{ℕ, ◌+◌, ◌-◌, ◌*◌, ◌/◌}
use cppload_workflow.Prelude.Tests.{ltb, leb}
use cppload_workflow.Prelude.Decimal.{to_string}
use mathlib.Core.Bool.{Bool}
use cppload_workflow.Prelude.Text.{Bytes}

pub record Double (F : Type 0) : Type 0 where
  -- `static_cast<double>` of an integer, and a literal as a fraction.
  pub of_nat : ℕ → F
  pub ratio : ℕ → ℕ → F
  pub add : F → F → F
  pub sub : F → F → F
  pub mul : F → F → F
  pub div : F → F → F
  pub fabs : F → F
  pub lt : F → F → Bool
  pub le : F → F → Bool
  -- `static_cast` to an unsigned integer, for values in its range.
  pub truncate : F → ℕ
  -- `std::to_string`.
  pub text : F → Bytes

-- Whole numbers with these operations, for runs at concrete inputs.
abbrev pub whole : Double ℕ
whole = record {
  of_nat = λ n. n;
  ratio = λ m n. m / n;
  add = λ m n. m + n;
  sub = λ m n. m - n;
  mul = λ m n. m * n;
  div = λ m n. m / n;
  fabs = λ n. n;
  lt = ltb;
  le = leb;
  truncate = λ n. n;
  text = to_string;
}
