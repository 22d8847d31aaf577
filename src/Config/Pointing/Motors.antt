-- ===== src/Config/Pointing/Motors.antt =====
-- control/src/config.c and core/src/Stepper.c: `stepper_init` comes back, for every entry.
use cnc_robot_control.Common.{
  ℕ, ◌+◌, Option-cases, ◌≡◌, true, inl, inr, Option, none, some, arith, Bool-cases,
}
use cnc_robot_control.Config.Init.{Plant, make_motor}
use cnc_robot_control.Config.Room.{IsSome}
use cnc_robot_control.Config.Types.{MotorConfig, validate_motor_node}
use cnc_robot_control.Gpio.Lines.{Gpio, gpio_init_pin, output, unset}
use cnc_robot_control.Config.Chars.{Bytes}
use cnc_robot_control.Stepper.World.{Stepper}
use cnc_robot_control.Stepper.Lifecycle.{
  Board, Platform, start_thread, with_step_line, with_dir_line, stepper_init,
}
use cnc_robot_control.Tasks.TaskList.{Tasks, create_task, list_insert_task}

-- There is memory for the nodes of `task_list`.
module _ (e : Platform) (nodes : (s : Tasks) → e.threads.malloc_node_ok s ≡ true) where
  start_thread-IsSome :
      (name : Bytes) (motor : Stepper) (b : Board) → IsSome (start_thread e name motor b)
  unfolding start_thread create_task list_insert_task
  start_thread-IsSome name motor b =
      let n = nodes (record b.tasks { next_node = b.tasks.next_node + 1 }) in
      elim (Bool-cases (e.threads.malloc_info_ok b.tasks)) [
        | inl m ↦ rw (m, n) tt
        | inr m ↦ rw m tt
      ]

  with_step_line-IsSome :
      (name : Bytes) (dir_line microstep steps dir : ℕ) (b : Board) (r : Option ℕ × Gpio)
      → IsSome (with_step_line e name dir_line microstep steps dir b r)
  unfolding with_step_line
  with_step_line-IsSome name dir_line microstep steps dir b (none, g) = tt
  with_step_line-IsSome name dir_line microstep steps dir b (some line, g) =
      start_thread-IsSome name _ (record b { gpio = g })

  with_dir_line-IsSome :
      (name : Bytes) (step_pin microstep steps dir : ℕ) (b : Board) (r : Option ℕ × Gpio)
      → IsSome (with_dir_line e name step_pin microstep steps dir b r)
  unfolding with_dir_line
  with_dir_line-IsSome name step_pin microstep steps dir b (none, g) = tt
  with_dir_line-IsSome name step_pin microstep steps dir b (some line, g) =
      with_step_line-IsSome name line microstep steps dir (record b { gpio = g })
        (gpio_init_pin e.gpiod step_pin unset 0 g)

  stepper_init-IsSome :
      (name : Bytes) (step_pin dir_pin microstep steps dir : ℕ) (b : Board)
      → IsSome (stepper_init e (some name) step_pin dir_pin microstep steps dir b)
  unfolding stepper_init
  stepper_init-IsSome name step_pin dir_pin microstep steps dir b = ground (
    arith,
    with_dir_line-IsSome name step_pin microstep steps dir b
        (gpio_init_pin e.gpiod dir_pin output 0 b.gpio),
  )

  pub make_motor-IsSome : {D : Type 0} (x : MotorConfig) (s : Plant D) → IsSome (make_motor e x s)
  unfolding make_motor
  make_motor-IsSome x s = elim (Bool-cases (validate_motor_node x)) [
    | inr v ↦ rw v tt
    | inl v ↦
        let made =
          stepper_init-IsSome x.name x.step_pin x.dir_pin x.microstep x.steps_rot x.direction
            s.board in
        elim (Option-cases (
          stepper_init e (some x.name) x.step_pin x.dir_pin x.microstep x.steps_rot x.direction
            s.board)) [ inl q ↦ absurd (rw q at made) | inr (r, q) ↦ rw (v, q) tt ]
  ]
