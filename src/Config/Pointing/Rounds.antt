-- ===== src/Config/Pointing/Rounds.antt =====
-- control/src/config.c: every round of the state machine keeps the axes at the entries for motors.
use cnc_robot_control.Common.{
  ℕ, zero, suc, ◌≡◌, refl, List, [], ◌∷◌, Option, none, some, arith, drop, replicate,
}
use cnc_robot_control.Common.Int.{◌>>=◌}
use cnc_robot_control.Config.Chars.{str_to_int, str_to_dir}
use cnc_robot_control.Config.Entries.{AllOf, AllIf, update_last-AllIf}
use cnc_robot_control.Config.Machine.{dispatch, step, start}
use cnc_robot_control.Config.MotorList.{state_read_motor_list}
use cnc_robot_control.Config.Pointing.{
  PointsTo, Pointing, PointingIf, AllOf-more, list_loop-Pointing,
}
use cnc_robot_control.Config.Scan.{
  state_read_line, state_read_param, state_read_identifier, state_read_value,
}
use cnc_robot_control.Config.Setters.{
  set_motor, set_axis, set_pin, set_param_of, state_set_identifier, state_check_param,
  state_set_param,
}
use cnc_robot_control.Config.Types.{
  MotorConfig, AxisConfig, State, Params, Message, Line, line, read_error, Machine, empty_axis,
  update_last,
}
use cnc_robot_control.Gpio.Pins.{int_to_gpio_pin}

after_update :
    (m : Machine) (o : Option (List AxisConfig))
    → AllIf (PointsTo m.motor_list_len) o
    → PointingIf (o >>= λ xs. some (record m { axis_list = xs }))
after_update m none h = tt
after_update m (some xs) h = h

module _ (m : Machine) (h : Pointing m) where
  set_axis-Pointing :
      (f : AxisConfig → AxisConfig)
      → ((x : AxisConfig) → PointsTo m.motor_list_len x → PointsTo m.motor_list_len (f x))
      → PointingIf (set_axis f m)
  unfolding set_axis
  set_axis-Pointing f k =
      after_update m (update_last m.axis_list m.axis_list_len f)
        (update_last-AllIf (PointsTo m.motor_list_len) m.axis_list m.axis_list_len f h k)

  set_motor-Pointing : (f : MotorConfig → MotorConfig) → PointingIf (set_motor f m)
  unfolding set_motor
  set_motor-Pointing f = ground arith

  set_pin-Pointing :
      (put : ℕ → MotorConfig → MotorConfig) (msg : Message) → PointingIf (set_pin put msg m)
  unfolding set_pin
  set_pin-Pointing put msg =
      ground (arith, set_motor-Pointing (put (int_to_gpio_pin (str_to_int m.value))))

  set_param_of-Pointing : (id : Params) → PointingIf (set_param_of id m)
  unfolding set_param_of
  set_param_of-Pointing Params.motor_name = set_motor-Pointing _
  set_param_of-Pointing Params.step_pin = set_pin-Pointing (λ pin x. record x { step_pin = pin }) _
  set_param_of-Pointing Params.dir_pin = set_pin-Pointing (λ pin x. record x { dir_pin = pin }) _
  set_param_of-Pointing Params.steps_rot =
      ground (
        arith,
        set_motor-Pointing (λ (x : MotorConfig). record x { steps_rot = str_to_int m.value }),
      )
  set_param_of-Pointing Params.direction =
      ground (
        arith,
        set_motor-Pointing (λ (x : MotorConfig). record x { direction = str_to_dir m.value }),
      )
  set_param_of-Pointing Params.microstep =
      ground (
        arith,
        set_motor-Pointing (λ (x : MotorConfig). record x { microstep = str_to_int m.value }),
      )
  set_param_of-Pointing Params.axis_name = set_axis-Pointing _ (λ x p. p)
  set_param_of-Pointing Params.motor_list = h
  set_param_of-Pointing Params.mm_rot = ground (
    arith,
    set_axis-Pointing (λ (x : AxisConfig). record x { mm_rot = str_to_int m.value }) (λ x p. p),
  )
  set_param_of-Pointing Params.invalid_param = h

read_line-Pointing :
    (file : List Line) (m : Machine) → m.file ≡ file → Pointing m → Pointing (state_read_line m)
unfolding state_read_line
read_line-Pointing [] m f h = rw (f, state_read_line) h
read_line-Pointing (read_error ∷ rest) m f h = rw (f, state_read_line) h
read_line-Pointing (line text slack ∷ rest) m f h = rw (f, state_read_line) h

dispatch-Pointing : (s : State) (m : Machine) → Pointing m → PointingIf (dispatch s m)
unfolding dispatch
dispatch-Pointing State.read_line m h = read_line-Pointing m.file m refl h
dispatch-Pointing State.read_param m h = unfold state_read_param in h
dispatch-Pointing State.read_identifier m h = unfold state_read_identifier in h
dispatch-Pointing State.set_identifier m h =
    unfold state_set_identifier in ground (arith, AllOf-more m.motor_list_len m.axis_list h)
dispatch-Pointing State.check_param m h = unfold state_check_param in ground arith
dispatch-Pointing State.read_value m h = unfold state_read_value in h
dispatch-Pointing State.set_param m h =
    unfold state_set_param in
    set_param_of-Pointing (record m { state = State.cleanup }) h m.param_id
dispatch-Pointing State.read_motor_list m h =
    unfold state_read_motor_list in list_loop-Pointing (drop m.offset m.line_buff) [] m.offset m h
dispatch-Pointing State.finished m h = h
dispatch-Pointing State.cleanup m h = h
dispatch-Pointing State.error m h = h

-- In the lists that a round leaves, every motor that an axis names is an entry below `motor_list_len`,
-- if it was so before the round.
pub step-Pointing : (m : Machine) → Pointing m → PointingIf (step m)
unfolding step
step-Pointing m h = dispatch-Pointing m.state m h

replicate-Points : (n k : ℕ) → AllOf (PointsTo k) (replicate n empty_axis)
replicate-Points zero k = tt
replicate-Points (suc n) k = ((refl, tt), replicate-Points n k)

pub start-Pointing : (motors axes : ℕ) (file : List Line) → Pointing (start motors axes file)
unfolding start
start-Pointing motors axes file = replicate-Points 8 motors
