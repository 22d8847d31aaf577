-- ===== src/Axis/Double.antt =====
-- The `double` of core/src/Axis.c and core/src/Time.c: its type and the operations that the code uses are a parameter. The
-- conversion to `unsigned int` is undefined for a number that it cannot hold: `none`.
use cnc_robot_control.Common.{ℕ, Bool, Option}
use cnc_robot_control.Common.Int.{ℤ}

pub record Double (D : Type 0) : Type 0 where
  pub zero_double : D
  pub nan : D
  pub of_uint : ℕ → D
  pub of_int : ℤ → D
  pub add : D → D → D
  pub mul : D → D → D
  pub div : D → D → D
  pub negate : D → D
  pub eq : D → D → Bool
  pub lt : D → D → Bool
  pub le : D → D → Bool
  pub to_uint : D → Option ℕ
