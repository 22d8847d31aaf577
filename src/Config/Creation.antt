-- ===== src/Config/Creation.antt =====
-- control/src/config.c and core/src/Stepper.c: the motors that `init_motors` makes of the entries.
use cnc_robot_control.Common.{
  ℕ, ◌+◌, ◌*◌, ◌%◌, ◌^◌, ◌<◌, ◌≡◌, inl, inr, ◌∙◌, refl, ap, Bool, true, false, ◌||◌, Option, none,
  some, arith, ◌==◌, take, Option-cases,
}
use cnc_robot_control.Common.Int.{pos}
use cnc_robot_control.Config.Chars.{Bytes}
use cnc_robot_control.Config.Entries.{IsFormed, IsHeaderPin}
use cnc_robot_control.Config.Formed.{validate_motor_node-accepted}
use cnc_robot_control.Config.Types.{MotorConfig, validate_motor_node}
use cnc_robot_control.Gpio.Lines.{
  output, unset, GpioCall, request_output, called, Gpio, gpio_init_controller, open_result,
  get_line_of, request_pin, keep_or_release, init_line, on_controller, gpio_init_pin,
}
use cnc_robot_control.Gpio.Pins.{gpio_get_controller, gpio_get_line}
use cnc_robot_control.Stepper.Lifecycle.{
  Board, Platform, new_motor, start_thread, with_step_line, with_dir_line, stepper_init,
}
use cnc_robot_control.Stepper.Values.{is_valid_direction_abs}
use cnc_robot_control.Stepper.World.{Stepper, is_some}
use cnc_robot_control.Tasks.TaskLaws.{create_task-listed, entry_of, listed}
use cnc_robot_control.Tasks.TaskList.{Tasks, id_or_zero}

-- The driver, the allocator and the threads grant whatever they are asked for.
pub record Willing (e : Platform) : Type 0 where
  pub opens : (g : Gpio) (flag : ℕ) → is_some (e.gpiod.open_chip g flag) ≡ true
  pub finds : (g : Gpio) (flag line : ℕ) → is_some (e.gpiod.find_line g flag line) ≡ true
  pub accepts : (g : Gpio) (c : GpioCall) → e.gpiod.accepts g c ≡ true
  pub allocates : (b : Board) → e.malloc_motor_ok b ≡ true
  pub sets : (line value : ℕ) → e.set_line_ok line value ≡ true
  pub lists : (s : Tasks) → e.threads.malloc_info_ok s ≡ true
  pub links : (s : Tasks) → e.threads.malloc_node_ok s ≡ true
  pub starts : (s : Tasks) → 0 < id_or_zero (e.threads.pthread_create s)

-- The line that the driver has given for a pin.
abbrev pub IsLineOf : Platform → ℕ → ℕ → Type 0
IsLineOf e pin line =
    (g : Gpio) × (e.gpiod.find_line g (gpio_get_controller pin) (gpio_get_line pin) ≡ some line)

-- A pin that is got: its line, and the state behind the call.
abbrev Got : Platform → ℕ → Option ℕ × Gpio → Type 0
Got e pin r = (line : ℕ) × (g : Gpio) × (r ≡ (some line, g)) × IsLineOf e pin line

-- The board behind the creation of the thread of a motor.
abbrev pub threaded : Platform → Bytes → Board → Board
threaded e name b = record b {
  tasks = listed b.tasks (entry_of b.tasks name 1024 e.pulser e.object);
}

module _ (e : Platform) (w : Willing e) where
  controller-ready :
      (pin : ℕ) (g : Gpio) → IsHeaderPin pin → (gpio_init_controller e.gpiod pin g).0 ≡ true
  unfolding gpio_init_controller open_result
  controller-ready pin g h = ground (arith, h, w.opens g (gpio_get_controller pin))

  line-Got : (pin : ℕ) (g : Gpio) → Got e pin (get_line_of e.gpiod pin g)
  line-Got pin g =
      let found = w.finds g (gpio_get_controller pin) (gpio_get_line pin) in
      elim (Option-cases (e.gpiod.find_line g (gpio_get_controller pin) (gpio_get_line pin))) [
        | inl nothing ↦ absurd (ground (arith, found, nothing))
        | inr (line, at_line) ↦ (line, (get_line_of e.gpiod pin g).1, rw at_line refl, (g, at_line))
      ]

  init_line-output :
      (v pin : ℕ) (r : Option ℕ × Gpio) → Got e pin r → Got e pin (init_line e.gpiod output v r)
  unfolding init_line request_pin keep_or_release
  init_line-output v pin r (line, g, q, of) =
      let c = request_output line v in
      let kept : init_line e.gpiod output v (some line, g) ≡ (some line, called c g) =
        rw (w.accepts g c) refl in
      (line, called c g, ap (init_line e.gpiod output v) q ∙ kept, of)

  init_line-unset :
      (v pin : ℕ) (r : Option ℕ × Gpio) → Got e pin r → Got e pin (init_line e.gpiod unset v r)
  unfolding init_line request_pin keep_or_release
  init_line-unset v pin r (line, g, q, of) = (line, g, ap (init_line e.gpiod unset v) q, of)

  on_controller-Got :
      (pin : ℕ) (r : Bool × Gpio) (f : Gpio → Option ℕ × Gpio)
      → r.0 ≡ true
      → ((g : Gpio) → Got e pin (f g))
      → Got e pin (on_controller r f)
  unfolding on_controller
  on_controller-Got pin (true, g) f h k = k g
  on_controller-Got pin (false, g) f h k = absurd (ground (arith, h))

  pin-Got :
      (pin : ℕ) (g : Gpio)
      → IsHeaderPin pin
      → Got e pin (gpio_init_pin e.gpiod pin output 0 g)
        × Got e pin (gpio_init_pin e.gpiod pin unset 0 g)
  unfolding gpio_init_pin
  pin-Got pin g h =
      let ready = controller-ready pin g h in
      (
        on_controller-Got pin (gpio_init_controller e.gpiod pin g) _ ready
            (λ g'. init_line-output 0 pin (get_line_of e.gpiod pin g') (line-Got pin g')),
        on_controller-Got pin (gpio_init_controller e.gpiod pin g) _ ready
            (λ g'. init_line-unset 0 pin (get_line_of e.gpiod pin g') (line-Got pin g')),
      )

  pub start_thread-some :
      (name : Bytes) (motor : Stepper) (b : Board)
      → start_thread e name motor b ≡ some (some motor, threaded e name b)
  unfolding start_thread
  start_thread-some name motor b =
      let s' = listed b.tasks (entry_of b.tasks name 1024 e.pulser e.object) in
      let started = w.starts s' in
      rw
        (create_task-listed e.threads name 1024 e.pulser e.object b.tasks (omega arith)
          (omega arith) (w.lists b.tasks)
          (w.links (record b.tasks { next_node = b.tasks.next_node + 1 })))
        (ground (arith, started))

-- The motor of an entry: its lines are those of the entry's two pins, its name and directions are those
-- of the entry, and it is free, at step 0.
abbrev pub IsMotorOf : Platform → MotorConfig → Stepper → Type 0
IsMotorOf e x motor =
    IsLineOf e x.step_pin motor.step_pin
    × IsLineOf e x.dir_pin motor.dir_pin
    × (motor.name ≡ take 31 x.name)
    × (motor.pos_direction ≡ x.direction)
    × (motor.curr_direction ≡ x.direction)
    × (motor.microsteps_per_rotation ≡ x.microstep * x.steps_rot % 2 ^ 32)
    × (motor.steps ≡ pos 0)
    × (motor.current_req ≡ none)
    × (motor.shared_mutex ≡ none)
    × (motor.stop ≡ false)

-- Both lines of a complete entry are had, and its thread is started.
pub stepper_init-thread :
    (e : Platform) (x : MotorConfig) (b : Board)
    → Willing e
    → IsFormed x
    → validate_motor_node x ≡ true
    → (motor : Stepper) × (g : Gpio) × (stepper_init e
          (some x.name)
          x.step_pin
          x.dir_pin
          x.microstep
          x.steps_rot
          x.direction
          b
        ≡ start_thread e x.name motor (record b { gpio = g }))
      × IsMotorOf e x motor
unfolding stepper_init with_dir_line with_step_line is_valid_direction_abs
stepper_init-thread e x b w f v =
    let (step_ok, dir_ok, micro, rot, dir) = validate_motor_node-accepted x f v in
    let ((dir_line, g1, got1, dir_of), _) = pin-Got e w x.dir_pin b.gpio dir_ok in
    let (_, (step_line, g2, got2, step_of)) = pin-Got e w x.step_pin g1 step_ok in
    let motor = new_motor e x.name dir_line step_line x.microstep x.steps_rot x.direction in
    let positive : (x.steps_rot == 0) ≡ false = ground arith in
    let direction : (x.direction == 1 || x.direction == 0) ≡ true = ground arith in
    (
      motor,
      g2,
      rw (micro, positive, direction, w.allocates b, got1, got2) refl,
      (
        step_of,
        dir_of,
        refl,
        refl,
        rw (w.sets dir_line x.direction) refl,
        refl,
        refl,
        refl,
        refl,
        refl,
      ),
    )

-- Every entry that the state machine leaves and that `validate_motor_node` accepts can be made a
-- motor: where the driver, the allocator and the threads grant what they are asked for,
-- `stepper_init` with the entry's parameters gives a motor of the entry.
pub stepper_init-validated :
    (e : Platform) (x : MotorConfig) (b : Board)
    → Willing e
    → IsFormed x
    → validate_motor_node x ≡ true
    → (motor : Stepper) × (b' : Board) × (stepper_init e
          (some x.name)
          x.step_pin
          x.dir_pin
          x.microstep
          x.steps_rot
          x.direction
          b
        ≡ some (some motor, b'))
      × IsMotorOf e x motor
stepper_init-validated e x b w f v =
    let (motor, g, starts, is) = stepper_init-thread e x b w f v in
    let b' = record b { gpio = g } in
    (motor, threaded e x.name b', starts ∙ start_thread-some e w x.name motor b', is)
