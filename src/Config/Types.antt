-- ===== src/Config/Types.antt =====
-- control/src/config.c: the data of the state machine. The static lists are arrays of
-- MOTOR_LIST_SIZE_MAX entries; a pointer into `motor_list` is an index. An access outside an array is
-- undefined in C and ends a run of the model: `none`.
use cnc_robot_control.Common.{
  ℕ, ◌-◌, Bool, false, ◌&&◌, not, List, [], ◌∷◌, Option, none, some, ltb, ◌==◌, if◌then◌else◌,
  get_elem?, set, replicate,
}
use cnc_robot_control.Config.Chars.{Bytes, direction_invalid}

abbrev pub motor_list_size_max : ℕ
motor_list_size_max = 8

abbrev pub motor_name_len : ℕ
motor_name_len = 32

abbrev pub axis_name_len : ℕ
axis_name_len = 32

abbrev pub param_max_len : ℕ
param_max_len = 32

pub record MotorConfig : Type 0 where
  pub name : Bytes
  pub step_pin : ℕ
  pub dir_pin : ℕ
  pub microstep : ℕ
  pub steps_rot : ℕ
  pub direction : ℕ
  pub motor : Option ℕ

pub record AxisConfig : Type 0 where
  pub name : Bytes
  pub mm_rot : ℕ
  pub count : ℕ
  pub motors : List (Option ℕ)
  pub axis : Option ℕ

pub data State : Type 0 where
  read_line read_param read_identifier set_identifier check_param read_value : State
  set_param read_motor_list cleanup finished error : State

pub data Identifiers : Type 0 where
  motor axis invalid_type : Identifiers

pub data Params : Type 0 where
  motor_name step_pin dir_pin steps_rot direction microstep : Params
  axis_name motor_list mm_rot invalid_param : Params

-- The texts of `err_str`; a payload is what the format string prints.
pub data Message : Type 0 where
  no_message : Message
  getline_failed : Message
  param_too_long identifier_too_long value_too_long : Message
  bad_param_char bad_identifier_char bad_value_char : ℕ → Message
  bad_identifier : Bytes → Message
  no_identifier : Message
  bad_param : Bytes → Identifiers → Message
  bad_step_pin bad_dir_pin bad_number bad_steps_rot bad_direction bad_microstep : Bytes → Message
  invalid_param_set : Message
  motor_not_found : Bytes → Message
  abrupt_end : Message

-- What the next `getline` finds: a line, with the bytes that its buffer holds behind the terminator,
-- or an I/O error. The end of the list is the end of the file.
pub data Line : Type 0 where
  line : Bytes → Bytes → Line
  read_error : Line

pub record Machine : Type 0 where
  pub state : State
  pub err_str : Message
  pub motor_list : List MotorConfig
  pub motor_list_len : ℕ
  pub axis_list : List AxisConfig
  pub axis_list_len : ℕ
  pub file : List Line
  pub line_buff : Bytes
  pub offset : ℕ
  pub param : Bytes
  pub param_id : Params
  pub value : Bytes
  pub last_id : Identifiers
  pub stop : Bool
  pub error_flag : Bool

-- `list[len - 1]` is written; an index that is no index of the array is a fault.
unfoldable pub update_last {ℓ} : {A : Type ℓ} → List A → ℕ → (A → A) → Option (List A)
update_last xs len f =
    if len == 0
    then none
    else elim (get_elem? xs (len - 1)) [ none ↦ none | some x ↦ some (set xs (len - 1) (f x)) ]

abbrev pub empty_motor : MotorConfig
empty_motor = record {
  name = [];
  step_pin = 0;
  dir_pin = 0;
  microstep = 0;
  steps_rot = 0;
  direction = direction_invalid;
  motor = none;
}

abbrev pub empty_axis : AxisConfig
empty_axis = record {
  name = [];
  mm_rot = 0;
  count = 0;
  motors = replicate motor_list_size_max none;
  axis = none;
}

-- `name[0] != 0`
pub is_named : Bytes → Bool
is_named [] = false
is_named (c ∷ s) = not (c == 0)

unfoldable pub validate_motor_node : MotorConfig → Bool
unfolding is_named
validate_motor_node node =
    not (node.dir_pin == 0)
    && not (node.step_pin == 0)
    && not (node.direction == direction_invalid)
    && is_named node.name
    && not (node.steps_rot == 0)
    && not (node.microstep == 0)

-- `node->name != NULL` holds of every array.
unfoldable pub validate_axis_node : AxisConfig → Bool
validate_axis_node node = ltb 0 node.count && ltb 0 node.mm_rot
