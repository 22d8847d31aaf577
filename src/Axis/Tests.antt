-- ===== src/Axis/Tests.antt =====
-- core/src/Axis.c on an axis of two motors. Its distances are whole numbers, on which the operations of
-- `double` are exact as far as they are used.
use cnc_robot_control.Common.{
  ◌≡◌, refl, true, false, [], ◌∷◌, none, some, arith, if◌then◌else◌, take,
}
use cnc_robot_control.Common.Int.{pos, negsuc}
use cnc_robot_control.Axis.Laws.{axis_from, axis_init-lem, is_acceptable, present}
use cnc_robot_control.Axis.Motion.{axis_move, axis_set_speed}
use cnc_robot_control.Axis.MotionLaws.{before_start}
use cnc_robot_control.Axis.MoveLaws.{axis_move-Moved}
use cnc_robot_control.Axis.Object.{axis_init}
use cnc_robot_control.Axis.Samples.{whole, axis_12, granting-Obliging, free-AllTurnable}
use cnc_robot_control.Axis.SpeedLaws.{axis_set_speed-success}
use cnc_robot_control.Axis.ThereAndBack.{Returned, axis_move-returns}
use cnc_robot_control.Stepper.MoveLaws.{Moved}
use cnc_robot_control.Stepper.PulseLaws.{idle}
use cnc_robot_control.Stepper.Pulser.{motor_pulser}
use cnc_robot_control.Stepper.Samples.{granting, free_world}
use cnc_robot_control.Stepper.SpeedLaws.{half_period_of, retimed}
use cnc_robot_control.Stepper.Values.{success}
use cnc_robot_control.Stepper.World.{World}

axis_init-lem_example :
    axis_init whole true (some (some 1 ∷ some 2 ∷ none ∷ [])) 1600 2
    ≡ some (
        if is_acceptable true 1600 2
        then axis_from whole 1600 (present (take 2 (some 1 ∷ some 2 ∷ none ∷ [])))
        else none)
axis_init-lem_example = axis_init-lem whole true (some 1 ∷ some 2 ∷ none ∷ []) 1600 2 (omega arith)

axis_set_speed-success_example :
    axis_set_speed whole (some axis_12) (pos 500) free_world
    ≡ some (
      success,
      some (record axis_12 { speed = pos 500 }),
      retimed (half_period_of 1000) (1 ∷ 2 ∷ []) free_world,
    )
axis_set_speed-success_example =
    axis_set_speed-success whole axis_12 free_world (pos 500) 1 1000 (2 ∷ [])
      (none ∷ none ∷ none ∷ none ∷ none ∷ none ∷ []) refl refl (omega arith) refl refl (omega arith)
      (refl, (refl, tt))

axis_move-Moved_example :
    (w1 w2 : World) × (axis_move whole granting (some axis_12) (negsuc 0) free_world
      ≡ some (success, some (record axis_12 { reset_dir = true }), w1))
    × (motor_pulser 2 idle 1 w1 ≡ some (some w2))
    × Moved 2 1 (2 ∷ []) (before_start whole axis_12 (negsuc 0) (1 ∷ 2 ∷ []) free_world) w2
axis_move-Moved_example =
    axis_move-Moved whole granting axis_12 1 1 2 (2 ∷ [])
      (none ∷ none ∷ none ∷ none ∷ none ∷ none ∷ []) free_world (negsuc 0) refl refl refl refl
      granting-Obliging free-AllTurnable (omega arith) (omega arith) (omega arith)
      (refl, (refl, tt)) (λ q e. ground arith) refl

axis_move-returns_example :
    (w1 w2 w3 w4 : World) × (axis_move whole granting (some axis_12) (pos 1) free_world
      ≡ some (success, some (record axis_12 { reset_dir = false }), w1))
    × (motor_pulser 2 idle 1 w1 ≡ some (some w2))
    × (axis_move whole granting (some (record axis_12 { reset_dir = false })) (negsuc 0) w2
        ≡ some (success, some (record axis_12 { reset_dir = true }), w3))
    × (motor_pulser 2 idle 1 w3 ≡ some (some w4))
    × Returned (1 ∷ 2 ∷ []) free_world w4
axis_move-returns_example =
    axis_move-returns whole granting axis_12 1 1 2 (2 ∷ [])
      (none ∷ none ∷ none ∷ none ∷ none ∷ none ∷ []) free_world (pos 1) (negsuc 0) refl refl refl
      refl refl refl refl
      (record {
        entries = refl;
        number = refl;
        few = omega arith;
        distinct = (refl, (refl, tt));
        obliging = granting-Obliging;
        fits = omega arith;
      })
      (omega arith) free-AllTurnable (λ q e. refl) (λ q e. ground arith) refl
