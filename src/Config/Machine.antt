-- ===== src/Config/Machine.antt =====
-- control/src/config.c: `motor_config_state_machine`, one round of its loop and the loop itself, and
-- the set-up of the static lists by `read_motor_config`.
use cnc_robot_control.Common.{
  ℕ, zero, suc, ◌+◌, ◌*◌, true, false, List, [], Option, none, some, length, replicate,
}
use cnc_robot_control.Config.MotorList.{state_read_motor_list}
use cnc_robot_control.Config.Scan.{
  state_read_line, state_read_param, state_read_identifier, state_read_value,
}
use cnc_robot_control.Config.Setters.{state_set_identifier, state_check_param, state_set_param}
use cnc_robot_control.Config.Types.{
  State, Identifiers, Params, Message, Line, Machine, empty_motor, empty_axis, motor_list_size_max,
}

unfoldable pub state_finished : Machine → Machine
state_finished m = record m { line_buff = []; stop = true }

-- The line is freed, with the cursor and the buffers of the parameter and the value cleared.
unfoldable pub state_cleanup : Machine → Machine
state_cleanup m = record m {
  line_buff = [];
  offset = 0;
  param = [];
  value = [];
  err_str = Message.no_message;
  state = State.read_line;
}

unfoldable pub state_error : Machine → Machine
state_error m = record m { line_buff = []; stop = true; error_flag = true }

unfoldable pub dispatch : State → Machine → Option Machine
unfolding state_finished state_cleanup state_error
dispatch State.read_line m = some (state_read_line m)
dispatch State.read_param m = some (state_read_param m)
dispatch State.read_identifier m = some (state_read_identifier m)
dispatch State.set_identifier m = some (state_set_identifier m)
dispatch State.check_param m = some (state_check_param m)
dispatch State.read_value m = some (state_read_value m)
dispatch State.set_param m = state_set_param m
dispatch State.read_motor_list m = state_read_motor_list m
dispatch State.finished m = some (state_finished m)
dispatch State.cleanup m = some (state_cleanup m)
dispatch State.error m = some (state_error m)

-- The body of `while(!stop)`.
unfoldable pub step : Machine → Option Machine
unfolding dispatch
step m = dispatch m.state m

-- How the loop ends: by its test, by an access outside an array, or not within the fuel.
pub data Run : Type 0 where
  halted : Machine → Run
  faulted : Run
  out_of_fuel : Run

unfoldable pub run : ℕ → Machine → Run
run zero m = out_of_fuel
run (suc fuel) m = elim m.stop [
  | true ↦ halted m
  | false ↦ elim (step m) [ none ↦ faulted | some m' ↦ run fuel m' ]
]

-- A line takes six rounds at most; the first `cleanup`, the end of the file and the test that ends
-- the loop take one each, and a read that fails two.
abbrev pub enough_fuel : List Line → ℕ
enough_fuel file = 6 * length file + 4

-- `read_motor_config` clears the lists, and `motor_config_state_machine` starts its loop. The lengths
-- keep what an earlier call left.
unfoldable pub start : ℕ → ℕ → List Line → Machine
start motors axes file = record {
  state = State.cleanup;
  err_str = Message.no_message;
  motor_list = replicate motor_list_size_max empty_motor;
  motor_list_len = motors;
  axis_list = replicate motor_list_size_max empty_axis;
  axis_list_len = axes;
  file = file;
  line_buff = [];
  offset = 0;
  param = [];
  param_id = Params.invalid_param;
  value = [];
  last_id = Identifiers.invalid_type;
  stop = false;
  error_flag = false;
}

unfoldable pub motor_config_state_machine : ℕ → ℕ → List Line → Run
unfolding run step start
motor_config_state_machine motors axes file = run (enough_fuel file) (start motors axes file)
