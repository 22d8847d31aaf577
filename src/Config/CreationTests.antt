-- ===== src/Config/CreationTests.antt =====
-- control/src/config.c and core/src/Stepper.c: a motor and an axis of configured entries.
use cnc_robot_control.Common.{ℕ, ◌<◌, ◌≡◌, refl, true, List, [], ◌∷◌, none, some, arith, replicate}
use cnc_robot_control.Common.Int.{ℤ}
use cnc_robot_control.Axis.Object.{axis_of}
use cnc_robot_control.Axis.Samples.{whole}
use cnc_robot_control.Config.AxisMaking.{make_axis-made}
use cnc_robot_control.Config.Init.{Plant, motor_loop, make_axis}
use cnc_robot_control.Config.Making.{Installed, motor_loop-Installed}
use cnc_robot_control.Stepper.Destroy.{stepper_destroy}
use cnc_robot_control.Stepper.Lifecycle.{Board, stepper_init}
use cnc_robot_control.Stepper.Samples.{free_world}
use cnc_robot_control.Stepper.World.{Stepper, World, put}
use cnc_robot_control.Stepper.Values.{success}
use cnc_robot_control.Config.Chars.{codes}
use cnc_robot_control.Config.Creation.{Willing}
use cnc_robot_control.Config.Destruction.{Undone, begun_board, stepper_init-destroy}
use cnc_robot_control.Config.Entries.{IsFormed}
use cnc_robot_control.Config.Samples.{willing, board, plant}
use cnc_robot_control.Config.Types.{AxisConfig, MotorConfig, validate_motor_node}
use cnc_robot_control.Stepper.Values.{is_valid_microstep}

willing-Willing : Willing willing
willing-Willing = record {
  opens = λ g flag. refl;
  finds = λ g flag line. refl;
  accepts = λ g c. refl;
  allocates = λ b. refl;
  sets = λ line value. refl;
  lists = λ s. refl;
  links = λ s. refl;
  starts = λ s. omega arith;
}

abbrev entry : MotorConfig
entry = record {
  name = codes "left";
  step_pin = 2_147_483_724;
  dir_pin = 2_147_483_794;
  microstep = 16;
  steps_rot = 200;
  direction = 1;
  motor = none;
}

entry-IsFormed : IsFormed entry
unfolding is_valid_microstep
entry-IsFormed = ground arith

entry_valid : validate_motor_node entry ≡ true
unfolding validate_motor_node
entry_valid = refl

motor_loop-Installed_example :
    (ys : List MotorConfig) × (s' : Plant ℤ) × (motor_loop willing 1 (entry ∷ []) plant
      ≡ some (success, ys, s'))
    × Installed willing 1 3 (entry ∷ []) ys s'.motors
    × ((q : ℕ) → q < 3 → s'.motors q ≡ plant.motors q)
motor_loop-Installed_example =
    motor_loop-Installed willing 1 (entry ∷ []) plant willing-Willing
      ((entry-IsFormed, entry_valid), tt)

abbrev axis_entry : AxisConfig
axis_entry = record {
  name = codes "x-axis";
  mm_rot = 20;
  count = 1;
  motors = some 0 ∷ replicate 7 none;
  axis = none;
}

make_axis-made_example :
    make_axis whole (λ s. true) (record entry { motor = some 3 } ∷ []) axis_entry plant
    ≡ some (some 0, record plant { axes = axis_of whole (3 ∷ []) 20 ∷ [] })
make_axis-made_example =
    make_axis-made whole (λ s. true) plant axis_entry willing 1 3 (0 ∷ []) (replicate 7 none)
      (entry ∷ []) (record entry { motor = some 3 } ∷ [])
      (
        refl,
        (
          (plant.board.gpio, refl),
          (plant.board.gpio, refl),
          refl,
          refl,
          refl,
          refl,
          refl,
          refl,
          refl,
          refl,
        ),
        refl,
      )
      refl refl (omega arith, tt) (omega arith) (omega arith) (omega arith) refl

stepper_init-destroy_example :
    (motor : Stepper) × (b1 b2 : Board) × (w' : World) × (stepper_init willing
        (some (codes "left"))
        2_147_483_724
        2_147_483_794
        16
        200
        1
        board
      ≡ some (some motor, b1))
    × (stepper_destroy (λ w. w) (some 3) (put 3 motor free_world) (begun_board 78 board b1)
        ≡ some (w', b2))
    × Undone 78 board b2
stepper_init-destroy_example =
    stepper_init-destroy willing entry board (λ w. w) 3 78 free_world willing-Willing entry-IsFormed
      entry_valid tt (omega arith) refl
