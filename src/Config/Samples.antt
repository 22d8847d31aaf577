-- ===== src/Config/Samples.antt =====
-- A platform that grants everything, and the objects of control/src/config.c before they are made.
use cnc_robot_control.Common.{true, [], none, some}
use cnc_robot_control.Common.Int.{ℤ, pos}
use cnc_robot_control.Config.Chars.{codes}
use cnc_robot_control.Config.Init.{Plant}
use cnc_robot_control.Stepper.Lifecycle.{Board, Platform}
use cnc_robot_control.Stepper.Samples.{free_motor}

abbrev pub willing : Platform
willing = record {
  gpiod = record {
    open_chip = λ g flag. some 1;
    find_line = λ g flag line. some line;
    accepts = λ g c. true;
    malloc_ok = λ g. true;
    bulk_max_lines = 64;
  };
  threads = record {
    malloc_info_ok = λ s. true;
    malloc_node_ok = λ s. true;
    pthread_create = λ s. some 78;
  };
  malloc_motor_ok = λ b. true;
  set_line_ok = λ line value. true;
  pulser = 1000;
  object = 2000;
}

abbrev pub board : Board
board = record {
  gpio = record { main_chip = none; aon_chip = none; gpio_calls = [] };
  tasks = record { task_list = []; next_node = 0; cancelled = [] };
}

abbrev pub plant : Plant ℤ
plant = record {
  board = board;
  motors = λ q. record (free_motor q) {
    step_pin = 76;
    dir_pin = 146;
    name = codes "left";
    steps = pos 0;
  };
  next_motor = 3;
  axes = [];
}
