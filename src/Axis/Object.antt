-- ===== src/Axis/Object.antt =====
-- core/include/Axis.h: the axis object; core/src/Axis.c: its creation and the conversions between
-- millimetres and steps. The array `motors` is its eight entries, with NULL behind the motors.
use cnc_robot_control.Common.{
  ℕ, ◌-◌, Bool, false, not, ◌||◌, List, ◌++◌, Option, none, some, ltb, ◌==◌, if◌then◌else◌, length,
  get_elem?, replicate,
}
use cnc_robot_control.Common.Int.{ℤ, ◌>>=◌}
use cnc_robot_control.Axis.Double.{Double}
use cnc_robot_control.Stepper.Request.{Filled, filled, null_motor, overrun, fill_loop}
use cnc_robot_control.Stepper.SpeedLaws.{pointers}
use cnc_robot_control.Stepper.Values.{motor_list_size_max}
use cnc_robot_control.Stepper.World.{World}

pub record Axis (D : Type 0) : Type 0 where
  pub motors : List (Option ℕ)
  pub num_motors : ℕ
  pub reset_dir : Bool
  pub mm_per_rotation : D
  pub position : D
  pub speed : D

-- `axis->motors[0]`
abbrev pub first_motor : {D : Type 0} → Axis D → Option (Option ℕ)
first_motor a = get_elem? a.motors 0

-- `axis->motors[0]->microsteps_per_rotation`
unfoldable pub first_microsteps : {D : Type 0} → Axis D → World → Option ℕ
first_microsteps a w = do
  entry ← first_motor a
  p ← entry
  some (w.motors p).microsteps_per_rotation

module _ {D : Type 0} (d : Double D) where
  unfoldable pub mm_to_steps : Axis D → World → D → Option ℕ
  mm_to_steps a w mm = do
    microsteps ← first_microsteps a w
    d.to_uint (d.div (d.mul mm (d.of_uint microsteps)) a.mm_per_rotation)

  unfoldable pub steps_to_mm : Axis D → World → ℤ → Option D
  steps_to_mm a w steps = do
    microsteps ← first_microsteps a w
    some (d.div (d.mul (d.of_int steps) a.mm_per_rotation) (d.of_uint microsteps))

  -- The object with the motors that the loop has copied.
  abbrev pub axis_of : List ℕ → ℕ → Axis D
  axis_of ps mm_per_rotation = record {
    motors = pointers ps ++ replicate (motor_list_size_max - length ps) none;
    num_motors = length ps;
    reset_dir = false;
    mm_per_rotation = d.of_uint mm_per_rotation;
    position = d.zero_double;
    speed = d.zero_double;
  }

  -- The loop over `motors[]` is that of `stepper_create_new_request`; a failure frees the object.
  unfoldable pub axis_filled : ℕ → Filled → Option (Option (Axis D))
  axis_filled mm_per_rotation (filled ps) = some (some (axis_of ps mm_per_rotation))
  axis_filled mm_per_rotation null_motor = some none
  axis_filled mm_per_rotation overrun = none

  -- `malloc_ok` is whether there is memory for the object. The outer `none` is an access outside an
  -- array.
  unfoldable pub axis_init : Bool → Option (List (Option ℕ)) → ℕ → ℕ → Option (Option (Axis D))
  unfolding axis_filled
  axis_init malloc_ok none mm_per_rotation count = some none
  axis_init malloc_ok (some motors) mm_per_rotation count =
      if mm_per_rotation == 0
      then some none
      else if count == 0 || ltb motor_list_size_max count
      then some none
      else if not malloc_ok
      then some none
      else axis_filled mm_per_rotation (fill_loop motor_list_size_max count motors)
