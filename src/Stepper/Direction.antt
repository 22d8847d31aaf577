-- ===== src/Stepper/Direction.antt =====
-- core/src/Stepper.c: the turning directions.
use cnc_robot_control.Common.{ℕ, not, Option, none, some, ◌==◌, if◌then◌else◌}
use cnc_robot_control.Common.Int.{ℤ, pos}
use cnc_robot_control.Stepper.Values.{
  is_valid_direction_abs, is_valid_direction_rel, direction_invalid, direction_positive,
  direction_negative, eq_ℤ, success, failure,
}
use cnc_robot_control.Stepper.World.{World, Env, set_value, put, log, stepper_is_busy}

unfoldable pub stepper_set_direction_abs : Env → Option ℕ → ℕ → World → ℤ × World
unfolding is_valid_direction_abs
stepper_set_direction_abs env none direction w = (failure, w)
stepper_set_direction_abs env (some p) direction w =
    let line = (w.motors p).dir_pin in
    let w' = log (set_value line direction) w in
    if not (is_valid_direction_abs direction)
    then (failure, w)
    else if stepper_is_busy w p
    then (failure, w)
    else if not (env.set_value_ok w line direction)
    then (failure, w')
    else (success, put p (record (w.motors p) { curr_direction = direction }) w')

unfoldable pub stepper_get_direction_abs : Option ℕ → World → ℕ
stepper_get_direction_abs none w = direction_invalid
stepper_get_direction_abs (some p) w = (w.motors p).curr_direction

-- `!d`
abbrev pub opposite : ℕ → ℕ
opposite d = if d == 0 then 1 else 0

unfoldable pub stepper_set_direction_rel : Env → Option ℕ → ℤ → World → ℤ × World
unfolding stepper_set_direction_abs is_valid_direction_rel
stepper_set_direction_rel env none direction w = (failure, w)
stepper_set_direction_rel env (some p) direction w =
    let d = (w.motors p).pos_direction in
    if not (is_valid_direction_rel direction)
    then (failure, w)
    else stepper_set_direction_abs env (some p)
        (if eq_ℤ direction direction_positive then d else opposite d) w

unfoldable pub stepper_get_direction_rel : Option ℕ → World → ℤ
stepper_get_direction_rel none w = pos direction_invalid
stepper_get_direction_rel (some p) w =
    if (w.motors p).curr_direction == (w.motors p).pos_direction
    then direction_positive
    else direction_negative
