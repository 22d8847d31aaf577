-- ===== src/Control/StartLaws.antt =====
-- control/src/control.c: what `init_system` has set up when it returns 0.
use cnc_robot_control.Common.{
  Always, ℕ, zero, suc, ◌≡◌, refl, true, false, List, Option, none, some, arith, ◌==◌, length,
  get_elem?, Bool-cases, Option-cases, inl, inr,
}
use cnc_robot_control.Common.Int.{ℤ, pos, negsuc, ◌>>=◌}
use cnc_robot_control.Axis.Double.{Double}
use cnc_robot_control.Config.Chars.{Bytes, codes}
use cnc_robot_control.Config.Init.{Plant, get_axis_by_name, read_motor_config}
use cnc_robot_control.Config.InitLaws.{AllReady, ReadyIfSuccess, read_motor_config-Ready}
use cnc_robot_control.Config.Types.{Machine}
use cnc_robot_control.Control.Program.{Control}
use cnc_robot_control.Control.Start.{
  Answers, System, with_control, connected, set_zed, set_flask, after_fork, start_py_process,
  start_zed, connect_all, watch_stop, with_axis, configured, init_system,
}
use cnc_robot_control.Gpio.Lines.{Gpio, gpio_init_pin, unset}
use cnc_robot_control.Gpio.Pins.{main_pin}
use cnc_robot_control.Ipc.Listener.{Os, is_negative, wait_connection}
use cnc_robot_control.Ipc.ListenerLaws.{Answered, Tracks, listener-Tracks}
use cnc_robot_control.Stepper.World.{is_some}

module _ {D : Type 0} (d : Double D) (a : Answers D) where
  -- The configuration has all its objects, there is an axis, and the listener is the one left open.
  pub record Based (y : System D) : Type 0 where
    pub objects : AllReady d a.malloc_axis_ok y.config
    pub axis : is_some y.control.x_axis ≡ true
    pub tracks : Tracks y.control.os

  -- Besides, both processes are connected, and the listener is open.
  pub record Started (y : System D) : Type 0 where
    pub based : Based y
    pub zed : is_negative y.control.zed_socket ≡ false
    pub flask : is_negative y.control.flask_socket ≡ false
    pub listening : is_negative y.control.os.listener_fd ≡ false

  abbrev pub StartedIf : ℤ × System D → Type 0
  StartedIf (pos k, y) = Started y
  StartedIf (negsuc k, y) = Unit

  open_listener :
      (fd : ℤ) (o : Os)
      → Answered (fd, o)
      → is_negative fd ≡ false
      → is_negative o.listener_fd ≡ false
  open_listener fd o (t, h) e = elim (Bool-cases (is_negative o.listener_fd)) [
    | inl n ↦ absurd (ground (arith, h n, e))
    | inr n ↦ n
  ]

  zed_connected :
      (y : System D) (fd : ℤ) (o : Os)
      → Based y
      → is_negative y.control.flask_socket ≡ false
      → Answered (fd, o)
      → StartedIf (connected set_zed y (fd, o))
  zed_connected y fd o b f an = elim (Bool-cases (is_negative fd)) [
    | inl e ↦ rw e tt
    | inr e ↦ rw e (record {
      based = record { objects = b.objects; axis = b.axis; tracks = an.0 };
      zed = e;
      flask = f;
      listening = open_listener fd o an e;
    })
  ]

  after_fork-Started :
      (z : ℤ) (y : System D)
      → Based y
      → is_negative y.control.flask_socket ≡ false
      → Always StartedIf (after_fork a z set_zed y)
  unfolding after_fork
  after_fork-Started (pos zero) y b f = tt
  after_fork-Started (pos (suc pid)) y b f =
      let (fd, o) = wait_connection a.sockets y.control.os in
      zed_connected y fd o b f (listener-Tracks a.sockets y.control.os b.tracks).0
  after_fork-Started (negsuc k) y b f = tt

  flask_connected :
      (y : System D) (fd : ℤ) (o : Os)
      → Based y
      → Answered (fd, o)
      → Always StartedIf (start_zed a (connected set_flask y (fd, o)))
  unfolding start_zed start_py_process
  flask_connected y fd o b an = elim (Bool-cases (is_negative fd)) [
    | inl e ↦ rw e tt
    | inr e ↦ rw e (
        after_fork-Started (a.fork o) (set_flask fd o y)
          (record { objects = b.objects; axis = b.axis; tracks = an.0 }) e)
  ]

  connect_all-Started : (y : System D) → Based y → Always StartedIf (connect_all a y)
  unfolding connect_all
  connect_all-Started y b =
      let (fd, o) = wait_connection a.sockets y.control.os in
      flask_connected y fd o b (listener-Tracks a.sockets y.control.os b.tracks).0

  watch_stop-Started :
      (y : System D) (r : Option ℕ × Gpio) → Based y → Always StartedIf (watch_stop a y r)
  unfolding watch_stop
  watch_stop-Started y (none, g) b = tt
  watch_stop-Started y (some line, g) b = elim (Bool-cases (a.edges_ok line)) [
    | inr e ↦ rw e tt
    | inl e ↦ rw e (
        connect_all-Started
          (with_control (record y.control { e_stop_fd = a.event_fd line })
            (record y { plant = record y.plant { board = record y.plant.board { gpio = g } } }))
          (record { objects = b.objects; axis = b.axis; tracks = b.tracks }))
  ]

  with_axis-Started :
      (y : System D) (handle : Option ℕ)
      → AllReady d a.malloc_axis_ok y.config
      → Tracks y.control.os
      → Always StartedIf (with_axis a y handle)
  unfolding with_axis
  with_axis-Started y none o t = tt
  with_axis-Started y (some i) o t = elim (Option-cases (get_elem? y.plant.axes i)) [
    | inl e ↦ rw e tt
    | inr (axis, e) ↦ rw e (
        watch_stop-Started (with_control (record y.control { x_axis = some axis }) y)
          (gpio_init_pin a.platform.gpiod (main_pin 68) unset 0 y.plant.board.gpio)
          (record { objects = o; axis = refl; tracks = t }))
  ]

  configured-Started :
      (c : Control D) (o : Option (ℤ × Machine × Plant D))
      → Tracks c.os
      → Always (λ r. ReadyIfSuccess d a.malloc_axis_ok r) o
      → Always StartedIf (o >>= λ r. configured a c r)
  unfolding configured
  configured-Started c none t h = tt
  configured-Started c (some (negsuc k, m, s)) t h = tt
  configured-Started c (some (pos k, m, s)) t h =
      elim (Option-cases (get_axis_by_name m (some (codes "x-axis")))) [
        | inl e ↦ rw e tt
        | inr (handle, e) ↦
            rw e (with_axis-Started (record { control = c; config = m; plant = s }) handle h t)
      ]

  -- Whatever the file, the driver, the threads and the system answer, when `init_system` comes back with a
  -- result that is not negative, every entry of the configuration has its object, the program has its
  -- axis, flask and zed are connected, and the listener is open and the one that all calls have left.
  pub init_system-Started :
      (argv : List Bytes) (y : System D)
      → Tracks y.control.os
      → Always StartedIf (init_system d a argv y)
  unfolding init_system
  init_system-Started argv y t = elim (Bool-cases (length argv == 3)) [
    | inr e ↦ rw e tt
    | inl e ↦ rw e (
        configured-Started y.control
          (read_motor_config d a.malloc_axis_ok a.platform a.opened a.file y.config y.plant) t
          (read_motor_config-Ready d a.malloc_axis_ok a.platform a.opened a.file y.config y.plant))
  ]
