-- ===== src/Stepper/Lifecycle.antt =====
-- core/src/Stepper.c: `stepper_init`, on the lines of core/src/GPIO.c and the tasks of core/src/Tasks.c.
use cnc_robot_control.Common.{
  ℕ, ◌-◌, ◌*◌, ◌%◌, ◌^◌, Bool, false, not, Option, none, some, ◌==◌, if◌then◌else◌, take,
}
use cnc_robot_control.Common.Int.{pos, ◌>>=◌}
use cnc_robot_control.Config.Chars.{Bytes}
use cnc_robot_control.Gpio.Lines.{Gpio, Gpiod, output, unset, gpio_init_pin}
use cnc_robot_control.Stepper.Values.{is_valid_microstep, is_valid_direction_abs}
use cnc_robot_control.Stepper.World.{Stepper}
use cnc_robot_control.Tasks.TaskList.{Tasks, Threads, create_task}

abbrev pub motor_name_len : ℕ
motor_name_len = 32

-- The static data of the three files.
pub record Board : Type 0 where
  pub gpio : Gpio
  pub tasks : Tasks

-- `set_line_ok` is whether `gpiod_line_set_value` accepts a value (the call is not logged); `pulser` is the pointer to
-- `motor_pulser`, `object` the one that the allocator gives.
pub record Platform : Type 0 where
  pub gpiod : Gpiod
  pub threads : Threads
  pub malloc_motor_ok : Board → Bool
  pub set_line_ok : ℕ → ℕ → Bool
  pub pulser : ℕ
  pub object : ℕ

-- The object before its thread is made. The result of `stepper_set_direction_abs` is not looked at: if
-- the line refuses the value, `curr_direction` keeps the 0 of the memset.
abbrev pub new_motor : Platform → Bytes → ℕ → ℕ → ℕ → ℕ → ℕ → Stepper
new_motor e name dir_line step_line microstep steps_per_rotation init_dir = record {
  dir_pin = dir_line;
  step_pin = step_line;
  current_req = none;
  shared_mutex = none;
  name = take (motor_name_len - 1) name;
  pos_direction = init_dir;
  curr_direction = if e.set_line_ok dir_line init_dir then init_dir else 0;
  half_period = 0;
  microsteps_per_rotation = microstep * steps_per_rotation % 2 ^ 32;
  steps = pos 0;
  stop = false;
  req_available = false;
}

-- With both lines: the thread is made, under the name that the caller gave. The outer `none` is a write
-- through NULL.
unfoldable pub start_thread : Platform → Bytes → Stepper → Board → Option (Option Stepper × Board)
start_thread e name motor b = do
  (id, tasks) ← create_task e.threads (some name) 1024 (some e.pulser) e.object b.tasks
  some (if id == 0 then none else some motor, record b { tasks = tasks })

-- With the line of `dir_pin`; the label `failure` frees the object and nothing else.
unfoldable pub with_step_line :
    Platform → Bytes → ℕ → ℕ → ℕ → ℕ → Board → Option ℕ × Gpio → Option (Option Stepper × Board)
unfolding start_thread
with_step_line e name dir_line microstep steps_per_rotation init_dir b (none, g) =
    some (none, record b { gpio = g })
with_step_line e name dir_line microstep steps_per_rotation init_dir b (some line, g) =
    start_thread e name (new_motor e name dir_line line microstep steps_per_rotation init_dir)
      (record b { gpio = g })

unfoldable pub with_dir_line :
    Platform → Bytes → ℕ → ℕ → ℕ → ℕ → Board → Option ℕ × Gpio → Option (Option Stepper × Board)
unfolding with_step_line
with_dir_line e name step_pin microstep steps_per_rotation init_dir b (none, g) =
    some (none, record b { gpio = g })
with_dir_line e name step_pin microstep steps_per_rotation init_dir b (some line, g) =
    with_step_line e name line microstep steps_per_rotation init_dir (record b { gpio = g })
      (gpio_init_pin e.gpiod step_pin unset 0 g)

unfoldable pub stepper_init :
    Platform → Option Bytes → ℕ → ℕ → ℕ → ℕ → ℕ → Board → Option (Option Stepper × Board)
unfolding with_dir_line
stepper_init e none step_pin dir_pin microstep steps_per_rotation init_dir b = some (none, b)
stepper_init e (some name) step_pin dir_pin microstep steps_per_rotation init_dir b =
    if not (is_valid_microstep microstep)
    then some (none, b)
    else if steps_per_rotation == 0
    then some (none, b)
    else if not (is_valid_direction_abs init_dir)
    then some (none, b)
    else if not (e.malloc_motor_ok b)
    then some (none, b)
    else with_dir_line e name step_pin microstep steps_per_rotation init_dir b
        (gpio_init_pin e.gpiod dir_pin output 0 b.gpio)
