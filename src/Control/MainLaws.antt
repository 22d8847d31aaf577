-- ===== src/Control/MainLaws.antt =====
-- control/src/control.c: `main` from the arguments to the end of the program.
use cnc_robot_control.Common.{Always, ℕ, ◌≡◌, ◌++◌, refl, List, Option, none, some}
use cnc_robot_control.Common.Int.{ℤ, pos, negsuc}
use cnc_robot_control.Axis.Double.{Double}
use cnc_robot_control.Config.Chars.{Bytes}
use cnc_robot_control.Control.EndLaws.{Closed, end_calls, cleanup-calls, main_loop-Closed}
use cnc_robot_control.Control.Loop.{
  Select, Run, ended, in_select, stuck_read, no_meaning, cleanup, main_loop,
}
use cnc_robot_control.Control.Program.{Control, Platform}
use cnc_robot_control.Control.Start.{Answers, System, ready_control, after_init, init_system, main}
use cnc_robot_control.Control.StartLaws.{Started, StartedIf, init_system-Started}
use cnc_robot_control.Ipc.Listener.{SysCall}
use cnc_robot_control.Ipc.ListenerLaws.{Tracks}
use cnc_robot_control.Stepper.World.{Env}

-- The program ends with the calls that close what `y` holds, where `y` is what `init_system` has set up.
abbrev pub ClosedAll : {D : Type 0} → System D → Run D → Type 0
ClosedAll y (ended c) = (cs : List SysCall) × (c.os.calls ≡ cs ++ end_calls y.control)
ClosedAll y r = Unit

module _ {D : Type 0} (d : Double D) (env : Env) (p : Platform D) (a : Answers D) where
  -- What `init_system` has given, and how the program that goes on from there runs.
  abbrev pub Whole : Option (ℤ × System D) → Run D → Type 0
  Whole none run = run ≡ no_meaning
  Whole (some (negsuc k, y)) run =
      (c : Control D) × (run ≡ ended c)
      × (c.world ≡ y.control.world)
      × (c.inputs ≡ y.control.inputs)
      × ClosedAll y run
  Whole (some (pos k, y)) run = Started d a y × ClosedAll y run

  closed_all : (y : System D) (run : Run D) → Closed d env p (ready_control y) run → ClosedAll y run
  closed_all y (ended c) (_, cs, e) = (cs, e)
  closed_all y (in_select c) h = tt
  closed_all y stuck_read h = tt
  closed_all y no_meaning h = tt

  after_init-Whole :
      (ss : List Select) (msg : List ℕ) (o : Option (ℤ × System D))
      → Always (StartedIf d a) o
      → Whole o (after_init d env p ss msg o)
  unfolding after_init cleanup
  after_init-Whole ss msg none h = refl
  after_init-Whole ss msg (some (negsuc k, y)) h =
      (cleanup y.control, refl, refl, refl, (y.control.os.calls, cleanup-calls d env p y.control))
  after_init-Whole ss msg (some (pos k, y)) h =
      let c = ready_control y in
      (h, closed_all y (main_loop d env p ss c msg) (main_loop-Closed d env p ss c msg))

  -- Whatever the arguments, the file, the answers of the system and the messages are: the loop of `main`
  -- is entered only with the configuration, the axis, the listener and the connections of flask and zed
  -- set up; after an error of `init_system` the program ends
  -- at once: no message is read, and the motors are as it has left them. In both cases, if it ends, the
  -- last that it has done is to close the lidar, zed and flask sockets that `init_system` has left, in this
  -- order, and then the listener, unless its descriptor is 0. Nothing is said where `init_system` is undefined or in the child of `fork`.
  pub main-Whole :
      (argv : List Bytes) (y : System D) (ss : List Select) (msg : List ℕ)
      → Tracks y.control.os
      → Whole (init_system d a argv y) (main d env p a argv y ss msg)
  unfolding main
  main-Whole argv y ss msg t =
      after_init-Whole ss msg (init_system d a argv y) (init_system-Started d a argv y t)
