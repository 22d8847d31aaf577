-- ===== src/Control/Start.antt =====
-- control/src/control.c: `init_system` and `start_py_process`, up to the loop of `main`.
use cnc_robot_control.Common.{
  ℕ, zero, suc, Bool, not, List, Option, none, some, ◌==◌, if◌then◌else◌, length, get_elem?,
}
use cnc_robot_control.Common.Int.{ℤ, pos, negsuc, ◌>>=◌}
use cnc_robot_control.Axis.Double.{Double}
use cnc_robot_control.Config.Chars.{Bytes, codes}
use cnc_robot_control.Config.Init.{Plant, get_axis_by_name, read_motor_config}
use cnc_robot_control.Config.Types.{Line, Machine}
use cnc_robot_control.Control.Loop.{Select, Run, ended, no_meaning, cleanup, main_loop}
use cnc_robot_control.Control.Program
use cnc_robot_control.Control.Program.{Control}
use cnc_robot_control.Stepper.World.{Env}
use cnc_robot_control.Gpio.Lines.{Gpio, gpio_init_pin, unset}
use cnc_robot_control.Gpio.Pins.{main_pin}
use cnc_robot_control.Ipc.Listener.{Os, Sockets, is_negative, wait_connection}
use cnc_robot_control.Stepper.Lifecycle.{Platform}
use cnc_robot_control.Stepper.Values.{success, failure}

-- What the start of the program finds: whether the file opens and its lines, memory for axes, whether
-- libgpiod watches a line for rising edges and the descriptor that it gives for it, and the result of
-- `fork` in the process that calls it.
pub record Answers (D : Type 0) : Type 0 where
  pub platform : Platform
  pub sockets : Sockets
  pub opened : Bool
  pub file : List Line
  pub malloc_axis_ok : Plant D → Bool
  pub edges_ok : ℕ → Bool
  pub event_fd : ℕ → ℤ
  pub fork : Os → ℤ

-- The variables of the program, and those of config.c and the files below it.
pub record System (D : Type 0) : Type 0 where
  pub control : Control D
  pub config : Machine
  pub plant : Plant D

module _ {D : Type 0} where
  abbrev pub with_control : Control D → System D → System D
  with_control c y = record y { control = c }

  -- The socket that a connection has given to a variable, and whether it is one.
  abbrev pub connected : (ℤ → Os → System D → System D) → System D → ℤ × Os → ℤ × System D
  connected set y (fd, o) = (if is_negative fd then failure else success, set fd o y)

  abbrev pub set_zed : ℤ → Os → System D → System D
  set_zed fd o y = with_control (record y.control { zed_socket = fd; os = o }) y

  abbrev pub set_flask : ℤ → Os → System D → System D
  set_flask fd o y = with_control (record y.control { flask_socket = fd; os = o }) y

  -- For the parent and for an error of `fork`; in the child it does not return: `none`.
  unfoldable pub after_fork :
      Answers D → ℤ → (ℤ → Os → System D → System D) → System D → Option (ℤ × System D)
  after_fork a (pos zero) set y = none
  after_fork a (pos (suc pid)) set y =
      some (connected set y (wait_connection a.sockets y.control.os))
  after_fork a (negsuc k) set y = some (failure, y)

  unfoldable pub start_py_process :
      Answers D → (ℤ → Os → System D → System D) → System D → Option (ℤ × System D)
  unfolding after_fork
  start_py_process a set y = after_fork a (a.fork y.control.os) set y

  -- From the connection with flask on.
  unfoldable pub start_zed : Answers D → ℤ × System D → Option (ℤ × System D)
  start_zed a (r, y) = if is_negative r then some (failure, y) else start_py_process a set_zed y

  unfoldable pub connect_all : Answers D → System D → Option (ℤ × System D)
  unfolding start_zed
  connect_all a y = start_zed a (connected set_flask y (wait_connection a.sockets y.control.os))

  -- From the pin of the emergency stop on; a pin that could not be had is passed on as NULL: `none`.
  unfoldable pub watch_stop : Answers D → System D → Option ℕ × Gpio → Option (ℤ × System D)
  unfolding connect_all
  watch_stop a y (none, g) = none
  watch_stop a y (some line, g) =
      let plant = record y.plant { board = record y.plant.board { gpio = g } } in
      let y' = record y { plant = plant } in
      if not (a.edges_ok line)
      then some (failure, y')
      else connect_all a (with_control (record y.control { e_stop_fd = a.event_fd line }) y')

  -- With the handle of the axis, which is NULL or the number of an object.
  unfoldable pub with_axis : Answers D → System D → Option ℕ → Option (ℤ × System D)
  unfolding watch_stop
  with_axis a y none = some (failure, with_control (record y.control { x_axis = none }) y)
  with_axis a y (some i) = do
    axis ← get_elem? y.plant.axes i
    watch_stop a (with_control (record y.control { x_axis = some axis }) y)
        (gpio_init_pin a.platform.gpiod (main_pin 68) unset 0 y.plant.board.gpio)

  -- With the configuration read.
  unfoldable pub configured : Answers D → Control D → ℤ × Machine × Plant D → Option (ℤ × System D)
  unfolding with_axis
  configured a c (negsuc k, m, s) = some (failure, record { control = c; config = m; plant = s })
  configured a c (pos k, m, s) = do
    handle ← get_axis_by_name m (some (codes "x-axis"))
    with_axis a (record { control = c; config = m; plant = s }) handle

  unfoldable pub init_system : Double D → Answers D → List Bytes → System D → Option (ℤ × System D)
  unfolding configured
  init_system d a argv y =
      if length argv == 3
      then (do
        r ← read_motor_config d a.malloc_axis_ok a.platform a.opened a.file y.config y.plant
        configured a y.control r)
      else some (failure, y)

  -- The motors that have been made are those that the commands move.
  abbrev pub ready_control : System D → Control D
  ready_control y = record y.control { world = record y.control.world { motors = y.plant.motors } }

  -- `main`, for the calls of `select` that come back: an error of `init_system` ends the program, after
  -- `cleanup`.
  unfoldable pub after_init :
      Double D → Env → Program.Platform D → List Select → List ℕ → Option (ℤ × System D) → Run D
  after_init d env p ss msg none = no_meaning
  after_init d env p ss msg (some (negsuc k, y)) = ended (cleanup y.control)
  after_init d env p ss msg (some (pos k, y)) = main_loop d env p ss (ready_control y) msg

  unfoldable pub main :
      Double D
      → Env
      → Program.Platform D
      → Answers D
      → List Bytes
      → System D
      → List Select
      → List ℕ
      → Run D
  unfolding after_init
  main d env p a argv y ss msg = after_init d env p ss msg (init_system d a argv y)
