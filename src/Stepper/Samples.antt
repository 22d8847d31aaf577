-- ===== src/Stepper/Samples.antt =====
-- A world of free motors and a driver that grants everything, on which core/src/Stepper.c and
-- core/src/Axis.c are tried.
use cnc_robot_control.Common.{ℕ, ◌+◌, true, false, [], none}
use cnc_robot_control.Common.Int.{pos}
use cnc_robot_control.Stepper.World.{Stepper, World, Env}

-- Every call of the driver and the allocator succeeds.
abbrev pub granting : Env
granting = record {
  set_value_ok = λ w line value. true;
  malloc_block_ok = λ w. true;
  request_bulk_ok = λ w bulk. true;
  malloc_mutex_ok = λ w. true;
  mutex_init_ok = λ w. true;
}

abbrev pub free_motor : ℕ → Stepper
free_motor p = record {
  dir_pin = p;
  step_pin = p + 100;
  current_req = none;
  shared_mutex = none;
  name = [];
  pos_direction = 1;
  curr_direction = 1;
  half_period = 500;
  microsteps_per_rotation = 3200;
  steps = pos 7;
  stop = false;
  req_available = false;
}

abbrev pub free_world : World
free_world = record { motors = λ p. free_motor p; requests = λ req. none; next_req = 5; calls = [] }
