-- ===== src/Base/Double.antt =====
-- `double`: the type and the operations that the program uses are a parameter of the model.
use Prim.Native.Nat.{ℕ}
use cpp_tcp.Base.Int.{ℤ}
use mathlib.Core.Bool.{Bool}

pub record DoubleOps (D : Type 0) : Type 0 where
  -- The literal n / m: 0.125 is `literal 1 8`.
  pub literal : ℕ → ℕ → D
  -- static_cast<double>(v)
  pub of_int : ℤ → D
  pub add : D → D → D
  pub sub : D → D → D
  pub mul : D → D → D
  pub div : D → D → D
  pub fabs : D → D
  pub less : D → D → Bool
