-- ===== src/Stepper/Tests.antt =====
-- core/src/Stepper.c on a world of free motors.
use cnc_robot_control.Common.{
  ℕ, ◌≡◌, ◌≢◌, refl, ◌==◌, ◌||◌, if◌then◌else◌, true, false, [], ◌∷◌, ◌++◌, Option, none, some,
  arith,
}
use cnc_robot_control.Common.Int.{pos, negsuc}
use cnc_robot_control.Stepper.Control.{stepper_stop}
use cnc_robot_control.Stepper.ControlLaws.{
  stepper_step_multiple-failure, stepper_set_direction_rel-get, KeptIf,
}
use cnc_robot_control.Stepper.Direction.{stepper_set_direction_rel, stepper_get_direction_rel}
use cnc_robot_control.Stepper.MoveLaws.{Moved, move-Moved}
use cnc_robot_control.Stepper.PulseLaws.{idle, pulses, Serves}
use cnc_robot_control.Stepper.Pulser.{motor_pulser, pulse_loop, finish_request}
use cnc_robot_control.Stepper.Request.{stepper_step_multiple}
use cnc_robot_control.Stepper.Samples.{granting, free_motor, free_world}
use cnc_robot_control.Stepper.HandlerLaws.{taken_up, Finished, motor_pulser-Tracked}
use cnc_robot_control.Stepper.Sharing.{Tracked}
use cnc_robot_control.Stepper.SpeedLaws.{member}
use cnc_robot_control.Stepper.StopRely.{stops, stops-Rely}
use cnc_robot_control.Stepper.StopErrors.{stepper_stop-twice}
use cnc_robot_control.Stepper.StopLaws.{stepper_stop-ends}
use cnc_robot_control.Stepper.Values.{success, is_valid_direction_rel, is_valid_direction_abs}
use cnc_robot_control.Stepper.World.{
  Stepper, StepperReq, World, release_bulk, signal_wait, stepper_is_busy,
}
use cnc_robot_control.Time.Calc.{Timespec}
use cnc_robot_control.Time.Laws.{time}

abbrev busy_motor : ℕ → ℕ → Stepper
busy_motor req p = record (free_motor p) { current_req = some req; shared_mutex = some req }

abbrev two_steps : StepperReq
two_steps = record {
  motor_list = 1 ∷ 2 ∷ [];
  motor_waiting = none;
  pin_bulk = 101 ∷ 102 ∷ [];
  count = 2;
  req_steps = 2;
}

-- Motors 1 and 2 are served by the request 4.
abbrev busy_world : World
busy_world = record free_world {
  motors = λ p. if p == 1 || p == 2 then busy_motor 4 p else free_motor p;
  requests = λ req. if 4 == req then some two_steps else none;
}

abbrev pulse_time : Timespec
pulse_time = time 0 500_000

busy_world-Serves : Serves 1 4 two_steps 2 busy_world
busy_world-Serves = record {
  points = refl;
  found = refl;
  distinct = (refl, (refl, tt));
  ranges = λ q e. ground arith;
}

busy_world-Serves_one : Serves 1 4 two_steps 1 busy_world
busy_world-Serves_one = record {
  points = refl;
  found = refl;
  distinct = (refl, (refl, tt));
  ranges = λ q e. ground arith;
}

stepper_step_multiple-failure_example :
    KeptIf busy_world (stepper_step_multiple granting (some (some 1 ∷ [])) 3 (pos 1) busy_world)
stepper_step_multiple-failure_example =
    stepper_step_multiple-failure granting (some (some 1 ∷ [])) 3 (pos 1) busy_world

move-Moved_example :
    (w1 w2 : World) × (stepper_step_multiple granting
        (some (some 1 ∷ some 2 ∷ []))
        3
        (pos 2)
        free_world
      ≡ some (success, w1))
    × (motor_pulser 3 idle 1 w1 ≡ some (some w2))
    × Moved 3 1 (2 ∷ []) free_world w2
move-Moved_example =
    move-Moved granting 2 3 1 (2 ∷ []) free_world (omega arith) (omega arith) (omega arith)
      (refl, (refl, tt)) (λ q e. ground arith) refl refl (refl, refl, refl, refl)

stepper_stop-ends_example :
    (w1 w2 w3 : World) × (stepper_stop (some 2) busy_world ≡ some (true, w1))
    × (pulse_loop 1 idle 1 pulse_time false w1 ≡ some (some w2))
    × (finish_request 1 w2 ≡ some w3)
    × ((w3.motors 2).stop ≡ false)
    × ((i : ℕ) → member i (1 ∷ 2 ∷ []) ≡ true → stepper_is_busy w3 i ≡ false)
    × (w3.calls
        ≡ ((busy_world.calls ++ pulses 1 (101 ∷ 102 ∷ []) pulse_time)
            ++ release_bulk (101 ∷ 102 ∷ []) ∷ [])
          ++ signal_wait 2 ∷ [])
stepper_stop-ends_example =
    stepper_stop-ends 0 1 2 4 4 two_steps pulse_time busy_world busy_world-Serves_one refl refl refl

stepper_set_direction_rel-get_example :
    (w' : World) × (stepper_set_direction_rel granting (some 3) (negsuc 0) free_world
      ≡ (success, w'))
    × (stepper_get_direction_rel (some 3) w' ≡ negsuc 0)
    × ((q : ℕ) → 3 ≢ q → w'.motors q ≡ free_world.motors q)
stepper_set_direction_rel-get_example =
    stepper_set_direction_rel-get granting 3 (negsuc 0) free_world
      (unfold is_valid_direction_rel in refl) (unfold is_valid_direction_abs in refl) refl
      (λ line value. refl)

-- Another thread stops motor 2 in the first round, which has one round of the fuel behind it.
abbrev stops_second : ℕ → Option ℕ
stops_second k = if k == 1 then some 2 else none

motor_pulser-Tracked_example :
    (j : ℕ) × (w1 w2 : World) × (motor_pulser 2 (stops stops_second) 1 busy_world ≡ some (some w2))
    × Tracked j 2 4 two_steps (taken_up 1 busy_world) w1
    × Finished 4 two_steps w1 w2
motor_pulser-Tracked_example =
    motor_pulser-Tracked 1 2 1 4 (stops stops_second) two_steps busy_world
      (stops-Rely stops_second 4 (1 ∷ 2 ∷ []) (101 ∷ 102 ∷ [])) busy_world-Serves refl refl
      (omega arith) (omega arith)

stepper_stop-twice_example :
    (w1 w2 w3 w4 : World) × (stepper_stop (some 1) busy_world ≡ some (true, w1))
    × (stepper_stop (some 2) w1 ≡ some (true, w2))
    × (pulse_loop 1 idle 1 pulse_time false w2 ≡ some (some w3))
    × (finish_request 1 w3 ≡ some w4)
    × ((w4.motors 1).stop ≡ true)
    × ((w4.motors 2).stop ≡ false)
    × (w4.calls
        ≡ ((busy_world.calls ++ pulses 1 (101 ∷ 102 ∷ []) pulse_time)
            ++ release_bulk (101 ∷ 102 ∷ []) ∷ [])
          ++ signal_wait 2 ∷ [])
stepper_stop-twice_example =
    stepper_stop-twice 0 1 1 2 4 4 4 two_steps pulse_time busy_world busy_world-Serves_one refl refl
      refl refl refl refl
