-- ===== src/Stepper/Speed.antt =====
-- core/src/Stepper.c: the speed of the motors.
use cnc_robot_control.Common.{
  ℕ, zero, suc, ◌/◌, ◌||◌, List, [], ◌∷◌, Option, none, some, ltb, ◌==◌, if◌then◌else◌,
}
use cnc_robot_control.Common.Int.{ℤ}
use cnc_robot_control.Stepper.Values.{motor_list_size_max, max_pps, success, failure}
use cnc_robot_control.Stepper.World.{World, put, stepper_is_busy}

-- The loop over `motors[]`, which looks at `shared_mutex` before it compares the pointer with NULL: a
-- NULL in the array is read through, as is an entry behind its end, and both are undefined.
unfoldable pub speed_loop : ℕ → List (Option ℕ) → ℕ → World → Option (ℤ × World)
speed_loop zero motors pps w = some (success, w)
speed_loop (suc n) [] pps w = none
speed_loop (suc n) (none ∷ motors) pps w = none
speed_loop (suc n) (some p ∷ motors) pps w =
    let rest =
      speed_loop n motors pps (put p (record (w.motors p) { half_period = 500000 / pps }) w) in
    if stepper_is_busy w p then some (failure, w) else rest

-- The array, or NULL.
unfoldable pub stepper_set_speed_multiple :
    Option (List (Option ℕ)) → ℕ → ℕ → World → Option (ℤ × World)
stepper_set_speed_multiple none pps count w = some (failure, w)
stepper_set_speed_multiple (some motors) pps count w =
    let limited = if ltb max_pps pps then max_pps else pps in
    if pps == 0
    then some (failure, w)
    else if count == 0 || ltb motor_list_size_max count
    then some (failure, w)
    else speed_loop count motors limited w

unfoldable pub stepper_set_speed : Option ℕ → ℕ → World → Option (ℤ × World)
unfolding stepper_set_speed_multiple
stepper_set_speed motor pps w = stepper_set_speed_multiple (some (motor ∷ [])) pps 1 w
