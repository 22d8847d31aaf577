-- ===== src/Config/Tests.antt =====
-- control/src/config.c: the state machine on whole files, and its parts on single machines.
use Prim.Native.String.{String}
use cnc_robot_control.Common.{true, false, List, [], ◌∷◌, some, ◌≡◌, refl, arith, replicate}
use cnc_robot_control.Config.Bound.{Fits, kind_of}
use cnc_robot_control.Config.Bound.Runs.{Within, motor_config_state_machine-Safe}
use cnc_robot_control.Common.Int.{ℤ}
use cnc_robot_control.Axis.Samples.{whole}
use cnc_robot_control.Config.Init.{Plant, read_motor_config}
use cnc_robot_control.Config.InitLaws.{ReadyIfSuccess}
use cnc_robot_control.Config.Pointing.Whole.{read_motor_config-Whole}
use cnc_robot_control.Config.Samples.{willing, plant}
use cnc_robot_control.Config.Chars.{codes, strncmp_eq}
use cnc_robot_control.Config.Entries.{IsFormed}
use cnc_robot_control.Config.Invariant.{Inv}
use cnc_robot_control.Config.Lines.{steps, assignment_line}
use cnc_robot_control.Config.Lookup.{find_node, get_motor_node_by_name}
use cnc_robot_control.Config.Machine.{halted, motor_config_state_machine}
use cnc_robot_control.Config.Outcome.{Verdict, Concludes, motor_config_state_machine-Verdict}
use cnc_robot_control.Config.Setters.{match_param, motor_params}
use cnc_robot_control.Config.Termination.{Ends, motor_config_state_machine-Ends}
use cnc_robot_control.Config.Formed.{EndsFormed, motor_config_state_machine-Formed}
use cnc_robot_control.Config.Types.{
  MotorConfig, State, Identifiers, Params, Message, Line, line, Machine, empty_motor, empty_axis,
  validate_motor_node,
}
use cnc_robot_control.Stepper.Values.{is_valid_microstep}

abbrev text_line : String → Line
text_line s = line (codes s) []

abbrev good_file : List Line
good_file =
    text_line "# robot\n"
    ∷ text_line "[motor]\n"
    ∷ text_line "name=left\n"
    ∷ text_line "step_pin=7\n"
    ∷ text_line "dir_pin=11 # a comment\n"
    ∷ text_line "steps_per_rotation=200\n"
    ∷ text_line "direction=clockwise\n"
    ∷ text_line "microstep=16\n"
    ∷ text_line "[axis]\n"
    ∷ text_line "name=x-axis\n"
    ∷ text_line "motors=left,left\n"
    ∷ text_line "mm_per_rotation=20\n"
    ∷ []

motor_config_state_machine-Ends_example : Ends (motor_config_state_machine 0 0 good_file)
motor_config_state_machine-Ends_example = motor_config_state_machine-Ends 0 0 good_file

motor_config_state_machine-Verdict_example : Concludes (motor_config_state_machine 0 0 good_file)
motor_config_state_machine-Verdict_example = motor_config_state_machine-Verdict 0 0 good_file

motor_config_state_machine-Formed_example : EndsFormed (motor_config_state_machine 0 0 good_file)
motor_config_state_machine-Formed_example = motor_config_state_machine-Formed 0 0 good_file

good-Fits : Fits good_file 0 0 8
unfolding kind_of strncmp_eq
good-Fits = omega arith

motor_config_state_machine-Safe_example :
    (m : Machine) × (motor_config_state_machine 0 0 good_file ≡ halted m) × Verdict m × Within m
motor_config_state_machine-Safe_example =
    motor_config_state_machine-Safe 0 0 good_file (omega arith) (omega arith) good-Fits

abbrev left : MotorConfig
left = record empty_motor {
  name = codes "left";
  step_pin = 2_147_483_724;
  dir_pin = 2_147_483_794;
  microstep = 16;
  steps_rot = 200;
  direction = 1;
}

-- In the section of a first motor, before a line is read.
abbrev in_motor : Machine
in_motor = record {
  state = State.read_param;
  err_str = Message.no_message;
  motor_list = left ∷ replicate 7 empty_motor;
  motor_list_len = 1;
  axis_list = replicate 8 empty_axis;
  axis_list_len = 0;
  file = [];
  line_buff = [];
  offset = 0;
  param = [];
  param_id = Params.invalid_param;
  value = [];
  last_id = Identifiers.motor;
  stop = false;
  error_flag = false;
}

-- In the section of a first axis, at the list of its motors.
abbrev in_list : Machine
in_list = record in_motor {
  state = State.read_motor_list;
  axis_list_len = 1;
  line_buff = codes "motors=left,left\n";
  offset = 7;
  last_id = Identifiers.axis;
  param_id = Params.axis_name;
}

in_list-Inv : Inv in_list
in_list-Inv = record {
  motors_size = refl;
  axes_size = refl;
  motor_begun = λ e. omega arith;
  axis_begun = λ e. omega arith;
  motor_owned = λ h. omega arith;
  axis_owned = λ h. omega arith;
}

-- Before the first call.
abbrev unread : Machine
unread = record in_motor {
  state = State.read_line;
  motor_list = replicate 8 empty_motor;
  motor_list_len = 0;
  last_id = Identifiers.invalid_type;
}

read_motor_config-Whole_example :
    (r : ℤ × Machine × Plant ℤ) × (read_motor_config whole
        (λ s. true)
        willing
        true
        good_file
        unread
        plant
      ≡ some r)
    × ReadyIfSuccess whole (λ s. true) r
read_motor_config-Whole_example =
    read_motor_config-Whole whole (λ s. true) willing (λ t. refl) true good_file unread plant
      (omega arith) (omega arith) good-Fits

left_found : get_motor_node_by_name in_motor (codes "left") ≡ some (some 0)
unfolding get_motor_node_by_name find_node strncmp_eq
left_found = refl

abbrev steps_line : Machine
steps_line = record in_motor { line_buff = codes "steps_per_rotation=200\n" }

name_free : strncmp_eq (codes "steps_per_rotation") (codes "motors") 6 ≡ false
unfolding strncmp_eq
name_free = refl

name_known : match_param (codes "steps_per_rotation") motor_params ≡ some Params.steps_rot
unfolding match_param strncmp_eq
name_known = refl

assignment_line_example :
    steps 3 steps_line
    ≡ some (record steps_line {
      state = State.set_param;
      param = codes "steps_per_rotation";
      param_id = Params.steps_rot;
      value = codes "200";
      offset = 23;
    })
assignment_line_example =
    assignment_line steps_line (codes "steps_per_rotation") (codes "200") [] 10 Params.steps_rot
      refl refl refl (ground arith) (omega arith) name_free name_known (refl, (refl, (refl, tt)))
      (omega arith) refl refl

left-IsFormed : IsFormed left
unfolding is_valid_microstep
left-IsFormed = ground arith

left_valid : validate_motor_node left ≡ true
unfolding validate_motor_node
left_valid = refl
