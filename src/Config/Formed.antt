-- ===== src/Config/Formed.antt =====
-- control/src/config.c: every entry of `motor_list` stays well formed, and one that passes
-- `validate_motor_node` passes the checks of `stepper_init`.
use cnc_robot_control.Common.{
  ℕ, zero, suc, ◌+◌, ◌≤◌, ◌<◌, ◌≡◌, ◌≢◌, inl, inr, refl, Bool, true, List, [], ◌∷◌, ◌++◌, Option,
  none, some, arith, ◌==◌, Bool-cases, Option-cases, drop, replicate,
}
use cnc_robot_control.Config.Chars.{Bytes, str_to_dir, str_to_int}
use cnc_robot_control.Config.Entries.{
  IsFormed, IsHeaderPin, AllOf, FormedIf, name-FormedIf, pin-FormedIf, steps_rot-FormedIf,
  direction-FormedIf, microstep-FormedIf, set_axis-FormedIf,
}
use cnc_robot_control.Config.Machine.{
  dispatch, step, Run, halted, faulted, out_of_fuel, run, start, enough_fuel,
  motor_config_state_machine,
}
use cnc_robot_control.Config.MotorList.{add_motor, set_listed, list_loop, state_read_motor_list}
use cnc_robot_control.Config.Scan.{
  state_read_line, state_read_param, state_read_identifier, state_read_value,
}
use cnc_robot_control.Config.Setters.{
  set_pin, set_param_of, state_set_identifier, state_check_param, state_set_param,
}
use cnc_robot_control.Config.Termination.{Ends, motor_config_state_machine-Ends}
use cnc_robot_control.Config.Types.{
  MotorConfig, AxisConfig, State, Params, Message, Line, line, read_error, Machine,
  validate_motor_node, empty_motor,
}
use cnc_robot_control.Gpio.PinLaws.{int_to_gpio_pin_lem}
use cnc_robot_control.Gpio.Pins.{int_to_gpio_pin, invalid_pin}
use cnc_robot_control.Stepper.Values.{is_valid_microstep}

str_to_dir-le : (s : Bytes) → str_to_dir s ≤ 2
unfolding str_to_dir
str_to_dir-le s = ground arith

accepted_pin : (n : ℕ) → int_to_gpio_pin n ≢ invalid_pin → IsHeaderPin (int_to_gpio_pin n)
accepted_pin n h = let (a, b, c, d, e) = int_to_gpio_pin_lem n h in (c, e)

module _ (m : Machine) (h : AllOf IsFormed m.motor_list) where
  set_pin-FormedIf :
      (msg : Message)
      → FormedIf (set_pin (λ pin x. record x { step_pin = pin }) msg m)
        × FormedIf (set_pin (λ pin x. record x { dir_pin = pin }) msg m)
  unfolding set_pin
  set_pin-FormedIf msg =
      let n = str_to_int m.value in
      elim (Bool-cases (int_to_gpio_pin n == invalid_pin)) [
        | inl bad ↦ ground arith
        | inr good ↦
            ground (arith, pin-FormedIf m h (int_to_gpio_pin n) (accepted_pin n (ground arith)))
      ]

  set_param_of-FormedIf : (id : Params) → FormedIf (set_param_of id m)
  unfolding set_param_of
  set_param_of-FormedIf Params.motor_name = name-FormedIf m h
  set_param_of-FormedIf Params.step_pin = (set_pin-FormedIf (Message.bad_step_pin m.value)).0
  set_param_of-FormedIf Params.dir_pin = (set_pin-FormedIf (Message.bad_dir_pin m.value)).1
  set_param_of-FormedIf Params.steps_rot =
      ground (arith, steps_rot-FormedIf m h (str_to_int m.value))
  set_param_of-FormedIf Params.direction =
      ground (arith, direction-FormedIf m h (str_to_dir m.value) (str_to_dir-le m.value))
  set_param_of-FormedIf Params.microstep =
      ground (arith, microstep-FormedIf m h (str_to_int m.value))
  set_param_of-FormedIf Params.axis_name = set_axis-FormedIf m h _
  set_param_of-FormedIf Params.motor_list = h
  set_param_of-FormedIf Params.mm_rot =
      ground (
        arith,
        set_axis-FormedIf m h (λ (x : AxisConfig). record x { mm_rot = str_to_int m.value }),
      )
  set_param_of-FormedIf Params.invalid_param = h

-- The loop over a list of motors writes no entry of `motor_list`.
abbrev SameMotors : Machine → Option Machine → Type 0
SameMotors m none = Unit
SameMotors m (some m') = m'.motor_list ≡ m.motor_list

abbrev ListedSame : Machine → Option (Machine × Bool) → Type 0
ListedSame m none = Unit
ListedSame m (some (m', b)) = m'.motor_list ≡ m.motor_list

add_motor-SameMotors : (node : ℕ) (m : Machine) → SameMotors m (add_motor node m)
unfolding add_motor
add_motor-SameMotors node m = ground arith

set_listed-SameMotors : (text : Bytes) (m : Machine) → ListedSame m (set_listed text m)
unfolding set_listed
set_listed-SameMotors [] m = refl
set_listed-SameMotors (c ∷ s) m = grind (arith, add_motor-SameMotors)

list_loop-SameMotors :
    (bs text : Bytes) (i : ℕ) (m : Machine) → SameMotors m (list_loop bs text i m)
unfolding list_loop
list_loop-SameMotors [] text i m =
    ground (arith, set_listed-SameMotors text (record m { value = text; offset = i + 1 }))
list_loop-SameMotors (c ∷ cs) text i m =
    let here = record m { value = text; offset = i + 1 } in
    let more = list_loop-SameMotors cs (text ++ c ∷ []) (i + 1) m in
    let last = set_listed-SameMotors text (record here { state = State.cleanup }) in
    elim (Option-cases (set_listed text here)) [
      | inl e ↦ ground (arith, more, last)
      | inr (r, e) ↦ ground (
        arith,
        more,
        last,
        rw e at (set_listed-SameMotors text here),
        list_loop-SameMotors cs [] (i + 1) r.0,
      )
    ]

read_line-same :
    (file : List Line) (m : Machine) → m.file ≡ file → (state_read_line m).motor_list ≡ m.motor_list
unfolding state_read_line
read_line-same [] m f = rw (f, state_read_line)
read_line-same (read_error ∷ rest) m f = rw (f, state_read_line)
read_line-same (line text slack ∷ rest) m f = rw (f, state_read_line)

list_FormedIf :
    (m : Machine) (o : Option Machine) → SameMotors m o → AllOf IsFormed m.motor_list → FormedIf o
list_FormedIf m none s h = tt
list_FormedIf m (some m') s h = rw s h

dispatch-FormedIf :
    (s : State) (m : Machine) → AllOf IsFormed m.motor_list → FormedIf (dispatch s m)
unfolding dispatch
dispatch-FormedIf State.read_line m h = rw (read_line-same m.file m refl) h
dispatch-FormedIf State.read_param m h = unfold state_read_param in h
dispatch-FormedIf State.read_identifier m h = unfold state_read_identifier in h
dispatch-FormedIf State.set_identifier m h = unfold state_set_identifier in ground arith
dispatch-FormedIf State.check_param m h = unfold state_check_param in ground arith
dispatch-FormedIf State.read_value m h = unfold state_read_value in h
dispatch-FormedIf State.set_param m h =
    unfold state_set_param in
    set_param_of-FormedIf (record m { state = State.cleanup }) h m.param_id
dispatch-FormedIf State.read_motor_list m h =
    unfold state_read_motor_list in
    list_FormedIf m _ (list_loop-SameMotors (drop m.offset m.line_buff) [] m.offset m) h
dispatch-FormedIf State.finished m h = h
dispatch-FormedIf State.cleanup m h = h
dispatch-FormedIf State.error m h = h

abbrev pub FormedRun : Run → Type 0
FormedRun (halted m) = AllOf IsFormed m.motor_list
FormedRun _ = Unit

next_round :
    (fuel : ℕ) (o : Option Machine)
    → ((m : Machine) → AllOf IsFormed m.motor_list → FormedRun (run fuel m))
    → FormedIf o
    → FormedRun (elim o [ none ↦ faulted | some m ↦ run fuel m ])
next_round fuel none ih v = tt
next_round fuel (some m) ih v = ih m v

run-FormedRun : (fuel : ℕ) (m : Machine) → AllOf IsFormed m.motor_list → FormedRun (run fuel m)
unfolding run
run-FormedRun zero m h = tt
run-FormedRun (suc fuel) m h = elim (Bool-cases m.stop) [
  | inl halt ↦ rw (halt, run) h
  | inr go ↦
      rw (go, run)
        (next_round fuel (step m) (run-FormedRun fuel)
          (unfold step in dispatch-FormedIf m.state m h))
]

AllOf-replicate : (n : ℕ) (x : MotorConfig) → IsFormed x → AllOf IsFormed (replicate n x)
AllOf-replicate zero x h = tt
AllOf-replicate (suc n) x h = (h, AllOf-replicate n x h)

-- What the entries of a run come to, when it does not end by an access outside an array.
abbrev pub EndsFormed : Run → Type 0
EndsFormed (halted m) = AllOf IsFormed m.motor_list
EndsFormed faulted = Unit
EndsFormed out_of_fuel = ⊥

ends_formed : (r : Run) → Ends r → FormedRun r → EndsFormed r
ends_formed (halted m) e v = v
ends_formed faulted e v = tt
ends_formed out_of_fuel e v = e

-- Whatever the file holds, the run ends, and when it is not by an access outside an array, every field
-- of every entry of `motor_list` is unset or has a value of its parameter's range, and names have room
-- for their terminator.
pub motor_config_state_machine-Formed :
    (motors axes : ℕ) (file : List Line) → EndsFormed (motor_config_state_machine motors axes file)
unfolding is_valid_microstep
motor_config_state_machine-Formed motors axes file =
    ends_formed (motor_config_state_machine motors axes file)
      (motor_config_state_machine-Ends motors axes file)
      (unfold motor_config_state_machine in
        run-FormedRun (enough_fuel file) (start motors axes file)
          (AllOf-replicate 8 empty_motor (ground arith)))

-- A well-formed entry that passes `validate_motor_node` passes every check of the parameters that
-- `stepper_init` and `GPIO_init_pin` make.
pub validate_motor_node-accepted :
    (x : MotorConfig)
    → IsFormed x
    → validate_motor_node x ≡ true
    → IsHeaderPin x.step_pin
      × IsHeaderPin x.dir_pin
      × (is_valid_microstep x.microstep ≡ true)
      × (0 < x.steps_rot)
      × (x.direction < 2)
unfolding validate_motor_node
validate_motor_node-accepted x h e = ground arith
