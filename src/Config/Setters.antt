-- ===== src/Config/Setters.antt =====
-- control/src/config.c: `state_set_identifier`, `state_check_param` and `state_set_param`.
use cnc_robot_control.Common.{
  ℕ, ◌+◌, ◌-◌, not, ◌&&◌, List, [], ◌∷◌, Option, none, some, ◌==◌, if◌then◌else◌, take,
}
use cnc_robot_control.Common.Int.{◌>>=◌}
use cnc_robot_control.Config.Chars.{
  Bytes, codes, strncmp_eq, str_to_dir, str_to_int, is_positive, direction_invalid,
}
use cnc_robot_control.Config.Types.{
  MotorConfig, AxisConfig, State, Identifiers, Params, Message, Machine, motor_name_len,
  axis_name_len, update_last,
}
use cnc_robot_control.Gpio.Pins.{int_to_gpio_pin, invalid_pin}
use cnc_robot_control.Stepper.Values.{is_valid_microstep}

abbrev pub fail : Message → Machine → Machine
fail msg m = record m { err_str = msg; state = State.error }

unfoldable pub state_set_identifier : Machine → Machine
state_set_identifier m =
    if strncmp_eq m.param (codes "motor") 5
    then record m {
      last_id = Identifiers.motor;
      motor_list_len = m.motor_list_len + 1;
      state = State.cleanup;
    }
    else if strncmp_eq m.param (codes "axis") 4
    then record m {
      last_id = Identifiers.axis;
      axis_list_len = m.axis_list_len + 1;
      state = State.cleanup;
    }
    else record m {
      err_str = Message.bad_identifier m.param;
      last_id = Identifiers.invalid_type;
      state = State.error;
    }

-- The three parallel tables of a type: its parameters' names, lengths and symbols.
abbrev pub motor_params : List (Bytes × ℕ × Params)
motor_params =
    (codes "name", 4, Params.motor_name)
    ∷ (codes "step_pin", 8, Params.step_pin)
    ∷ (codes "dir_pin", 7, Params.dir_pin)
    ∷ (codes "steps_per_rotation", 18, Params.steps_rot)
    ∷ (codes "direction", 9, Params.direction)
    ∷ (codes "microstep", 9, Params.microstep)
    ∷ []

abbrev pub axis_params : List (Bytes × ℕ × Params)
axis_params =
    (codes "name", 4, Params.axis_name)
    ∷ (codes "motors", 6, Params.motor_list)
    ∷ (codes "mm_per_rotation", 15, Params.mm_rot)
    ∷ []

-- The validation loop.
unfoldable pub match_param : Bytes → List (Bytes × ℕ × Params) → Option Params
match_param text [] = none
match_param text ((name, len, id) ∷ rest) =
    if strncmp_eq text name len then some id else match_param text rest

check_table : List (Bytes × ℕ × Params) → Machine → Machine
check_table table m =
    if strncmp_eq m.param (codes "motors") 6
    then record m { state = State.read_motor_list; param_id = Params.motor_list }
    else elim (match_param m.param table) [
      | some id ↦ record m { state = State.read_value; param_id = id }
      | none ↦ record m {
        err_str = Message.bad_param m.param m.last_id;
        param_id = Params.invalid_param;
        state = State.error;
      }
    ]

check_param_of : Identifiers → Machine → Machine
unfolding check_table
check_param_of Identifiers.motor m = check_table motor_params m
check_param_of Identifiers.axis m = check_table axis_params m
check_param_of Identifiers.invalid_type m = record m {
  err_str = Message.no_identifier;
  state = State.error;
  param_id = Params.invalid_param;
}

unfoldable pub state_check_param : Machine → Machine
unfolding check_param_of
state_check_param m = check_param_of m.last_id m

-- `motor_list[motor_list_len-1]` and `axis_list[axis_list_len-1]` are written.
unfoldable pub set_motor : (MotorConfig → MotorConfig) → Machine → Option Machine
set_motor f m = do
  xs ← update_last m.motor_list m.motor_list_len f
  some (record m { motor_list = xs })

unfoldable pub set_axis : (AxisConfig → AxisConfig) → Machine → Option Machine
set_axis f m = do xs ← update_last m.axis_list m.axis_list_len f; some (record m { axis_list = xs })

-- `strncpy` of at most 31 bytes and the terminator.
abbrev pub copy_name : ℕ → Bytes → Bytes
copy_name len s = take (len - 1) s

unfoldable pub set_pin : (ℕ → MotorConfig → MotorConfig) → Message → Machine → Option Machine
set_pin put msg m =
    let temp = str_to_int m.value in
    let pin = int_to_gpio_pin temp in
    if is_positive temp
    then if pin == invalid_pin then some (fail msg m) else set_motor (put pin) m
    else some (fail (Message.bad_number m.value) m)

-- The cases of the `switch`; `m` is already on its way to `cleanup`.
unfoldable pub set_param_of : Params → Machine → Option Machine
unfolding set_pin
set_param_of Params.motor_name m =
    set_motor (λ x. record x { name = copy_name motor_name_len m.value }) m
set_param_of Params.step_pin m =
    set_pin (λ pin x. record x { step_pin = pin }) (Message.bad_step_pin m.value) m
set_param_of Params.dir_pin m =
    set_pin (λ pin x. record x { dir_pin = pin }) (Message.bad_dir_pin m.value) m
set_param_of Params.steps_rot m =
    let temp = str_to_int m.value in
    if is_positive temp
    then set_motor (λ x. record x { steps_rot = temp }) m
    else some (fail (Message.bad_steps_rot m.value) m)
set_param_of Params.direction m =
    let temp = str_to_dir m.value in
    if not (temp == direction_invalid)
    then set_motor (λ x. record x { direction = temp }) m
    else some (fail (Message.bad_direction m.value) m)
set_param_of Params.microstep m =
    let temp = str_to_int m.value in
    if is_positive temp && is_valid_microstep temp
    then set_motor (λ x. record x { microstep = temp }) m
    else some (fail (Message.bad_microstep m.value) m)
set_param_of Params.axis_name m =
    set_axis (λ x. record x { name = copy_name axis_name_len m.value }) m
set_param_of Params.motor_list m = some m
set_param_of Params.mm_rot m =
    let temp = str_to_int m.value in
    if is_positive temp
    then set_axis (λ x. record x { mm_rot = temp }) m
    else some (fail (Message.bad_number m.value) m)
set_param_of Params.invalid_param m = some (fail Message.invalid_param_set m)

unfoldable pub state_set_param : Machine → Option Machine
unfolding set_param_of
state_set_param m = set_param_of m.param_id (record m { state = State.cleanup })
