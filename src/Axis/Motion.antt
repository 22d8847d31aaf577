-- ===== src/Axis/Motion.antt =====
-- core/src/Axis.c: the functions that move an axis. The parameter `axis` is NULL or an object, and the
-- object is returned as the call leaves it. The outer `none` is an access through a pointer that is not
-- valid, or a conversion to `unsigned int` of a number that it cannot hold.
use cnc_robot_control.Common.{
  ℕ, zero, suc, Bool, true, false, not, List, [], ◌∷◌, Option, none, some, if◌then◌else◌,
}
use cnc_robot_control.Common.Int.{ℤ, pos, negsuc, ◌>>=◌}
use cnc_robot_control.Axis.Double.{Double}
use cnc_robot_control.Axis.Object.{Axis, first_motor, mm_to_steps, steps_to_mm}
use cnc_robot_control.Stepper.Control.{stepper_get_steps, stepper_ready, stepper_stop, stepper_wait}
use cnc_robot_control.Stepper.Direction.{stepper_set_direction_rel}
use cnc_robot_control.Stepper.Request.{stepper_step_multiple}
use cnc_robot_control.Stepper.Speed.{stepper_set_speed_multiple}
use cnc_robot_control.Stepper.Values.{success, failure, direction_positive, direction_negative}
use cnc_robot_control.Stepper.World.{World, Env}

-- `r < 0`
abbrev pub is_failure : ℤ → Bool
is_failure (pos n) = false
is_failure (negsuc n) = true

-- What follows the call for one motor.
abbrev pub next_motor : ℤ × World → (World → Option (ℤ × World)) → Option (ℤ × World)
next_motor (pos n, w) more = more w
next_motor (negsuc n, w) more = some (failure, w)

-- The loop over the motors of the axis.
unfoldable pub direction_loop : Env → ℕ → List (Option ℕ) → ℤ → World → Option (ℤ × World)
direction_loop env zero motors direction w = some (success, w)
direction_loop env (suc n) [] direction w = none
direction_loop env (suc n) (p ∷ motors) direction w =
    next_motor (stepper_set_direction_rel env p direction w)
      (λ w'. direction_loop env n motors direction w')

module _ {D : Type 0} where
  unfoldable pub axis_set_direction : Env → Option (Axis D) → ℤ → World → Option (ℤ × World)
  axis_set_direction env none direction w = some (failure, w)
  axis_set_direction env (some a) direction w = direction_loop env a.num_motors a.motors direction w

  -- The direction that a call before has changed is set back, and whether this succeeds.
  unfoldable pub reset_direction : Env → Axis D → World → Option (Bool × Axis D × World)
  reset_direction env a w =
      let a' = record a { reset_dir = false } in
      if a.reset_dir
      then (do
        (r, w') ← axis_set_direction env (some a') direction_positive w
        some (not (is_failure r), a', w'))
      else some (true, a, w)

  unfoldable pub axis_wait : Option (Axis D) → World → Option (Bool × World)
  axis_wait none w = some (false, w)
  axis_wait (some a) w = do p ← first_motor a; stepper_wait p w

  unfoldable pub axis_ready : Option (Axis D) → World → Option Bool
  axis_ready none w = some false
  axis_ready (some a) w = do p ← first_motor a; some (stepper_ready p w)

  unfoldable pub axis_stop : Option (Axis D) → World → Option (Bool × World)
  axis_stop none w = some (false, w)
  axis_stop (some a) w = do p ← first_motor a; stepper_stop p w

module _ {D : Type 0} (d : Double D) where
  unfoldable pub axis_set_speed : Option (Axis D) → D → World → Option (ℤ × Option (Axis D) × World)
  axis_set_speed none mm_per_sec w = some (failure, none, w)
  axis_set_speed (some a) mm_per_sec w =
      if d.le mm_per_sec d.zero_double then some (failure, some a, w) else (do
        steps_per_sec ← mm_to_steps d a w mm_per_sec
        (r, w') ← stepper_set_speed_multiple (some a.motors) steps_per_sec a.num_motors w
        if is_failure r
            then some (failure, some a, w')
            else some (success, some (record a { speed = mm_per_sec }), w'))

  -- A negative distance turns the motors for this move: the distance to go, and whether this succeeds.
  unfoldable pub turn_back : Env → Axis D → D → World → Option (Bool × D × Axis D × World)
  turn_back env a distance w =
      let a' = record a { reset_dir = true } in
      if d.lt distance d.zero_double
      then (do
        (r, w') ← axis_set_direction env (some a') direction_negative w
        some (not (is_failure r), d.negate distance, a', w'))
      else some (true, distance, a, w)

  -- The rest of `axis_move`. The count fits an `int`.
  unfoldable pub start_move : Env → Axis D → D → World → Option (ℤ × Option (Axis D) × World)
  start_move env a distance w = do
    steps ← mm_to_steps d a w distance
    (r, w') ← stepper_step_multiple env (some a.motors) steps (pos a.num_motors) w
    some (if is_failure r then failure else success, some a, w')

  unfoldable pub turn_and_start : Env → Axis D → D → World → Option (ℤ × Option (Axis D) × World)
  turn_and_start env a distance w = do
    (turned, distance', a', w') ← turn_back env a distance w
    if turned then start_move env a' distance' w' else some (failure, some a', w')

  unfoldable pub axis_move :
      Env → Option (Axis D) → D → World → Option (ℤ × Option (Axis D) × World)
  axis_move env none distance w = some (failure, none, w)
  axis_move env (some a) distance w =
      if d.eq distance d.zero_double then some (success, some a, w) else (do
        (reset, a', w') ← reset_direction env a w
        if reset then turn_and_start env a' distance w' else some (failure, some a', w'))

  -- The steps pass through `unsigned int` and back to the `int` that they were.
  unfoldable pub axis_get_position : Option (Axis D) → World → Option (D × Option (Axis D))
  axis_get_position none w = some (d.nan, none)
  axis_get_position (some a) w = do
    p ← first_motor a
    mm ← steps_to_mm d a w (stepper_get_steps p w)
    some (mm, some (record a { position = mm }))
