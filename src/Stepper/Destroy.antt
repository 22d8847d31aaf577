-- ===== src/Stepper/Destroy.antt =====
-- core/src/Stepper.c: `stepper_destroy`.
use cnc_robot_control.Common.{ℕ, Option, none, some, if◌then◌else◌}
use cnc_robot_control.Common.Int.{◌>>=◌}
use cnc_robot_control.Gpio.Lines.{called, release_line}
use cnc_robot_control.Stepper.Control.{stepper_stop}
use cnc_robot_control.Stepper.Lifecycle.{Board}
use cnc_robot_control.Stepper.World.{Stepper, World}
use cnc_robot_control.Tasks.TaskList.{task_get_id_by_name, task_kill}

-- The thread of the motor is killed, and the lines are released. The object is freed: what the world holds
-- for it has no meaning any more.
unfoldable pub release_motor : Stepper → Board → Board
release_motor motor b = record b {
  tasks = task_kill (task_get_id_by_name (some motor.name) b.tasks) b.tasks;
  gpio = called (release_line motor.dir_pin) (called (release_line motor.step_pin) b.gpio);
}

-- `meanwhile` is what the threads of the motors do while `stepper_stop` waits.
unfoldable pub stepper_destroy : (World → World) → Option ℕ → World → Board → Option (World × Board)
unfolding release_motor
stepper_destroy meanwhile none w b = some (w, b)
stepper_destroy meanwhile (some p) w b = do
  (waits, stopped) ← stepper_stop (some p) w
  let w' = if waits then meanwhile stopped else stopped
  some (w', release_motor (w'.motors p) b)
