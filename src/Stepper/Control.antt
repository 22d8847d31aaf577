-- ===== src/Stepper/Control.antt =====
-- core/src/Stepper.c: the functions that ask a moving motor, wait for it or stop it.
use cnc_robot_control.Common.{
  ℕ, ◌-◌, ◌^◌, Bool, true, false, not, Option, none, some, if◌then◌else◌,
}
use cnc_robot_control.Common.Int.{ℤ, negsuc, ◌>>=◌}
use cnc_robot_control.Stepper.Pulser.{request_of, set_request}
use cnc_robot_control.Stepper.World.{World, put, stepper_is_busy}

-- INT_MIN
abbrev pub int_min : ℤ
int_min = negsuc (2 ^ 31 - 1)

unfoldable pub stepper_get_steps : Option ℕ → World → ℤ
stepper_get_steps none w = int_min
stepper_get_steps (some p) w = (w.motors p).steps

unfoldable pub stepper_ready : Option ℕ → World → Bool
stepper_ready none w = false
stepper_ready (some p) w = not (stepper_is_busy w p)

-- The call up to where it blocks, and whether it blocks: until the motor is not busy any more.
unfoldable pub stepper_wait : Option ℕ → World → Option (Bool × World)
stepper_wait none w = some (false, w)
stepper_wait (some p) w =
    if stepper_is_busy w p
    then (do
      (req, r) ← request_of w p
      some (true, set_request req (record r { motor_waiting = some p }) w))
    else some (false, w)

unfoldable pub stepper_stop : Option ℕ → World → Option (Bool × World)
unfolding stepper_wait
stepper_stop none w = some (false, w)
stepper_stop (some p) w =
    let busy = stepper_is_busy w p in
    let w' = put p (record (w.motors p) { stop = busy }) w in
    if busy then stepper_wait (some p) w' else some (false, w')
