-- ===== src/Config/Pointing/Whole.antt =====
-- control/src/config.c: a file that fits is read, and its objects are made, to a result.
use cnc_robot_control.Common.{
  Always, ◌≤◌, ◌≡◌, refl, Bool, true, false, List, Option, none, some, arith, if◌then◌else◌,
}
use cnc_robot_control.Common.Int.{ℤ}
use cnc_robot_control.Axis.Double.{Double}
use cnc_robot_control.Config.Bound.{Fits}
use cnc_robot_control.Config.Bound.Runs.{Within, motor_config_state_machine-Safe}
use cnc_robot_control.Config.Init.{Plant, init_motors, read_motor_config}
use cnc_robot_control.Config.InitLaws.{ReadyIfSuccess, read_motor_config-Ready}
use cnc_robot_control.Config.Machine.{Run, halted, faulted, out_of_fuel, motor_config_state_machine}
use cnc_robot_control.Config.Pointing.Loops.{init_motors-IsSome}
use cnc_robot_control.Config.Room.{IsSome}
use cnc_robot_control.Config.Types.{Line, Machine}
use cnc_robot_control.Stepper.Lifecycle.{Platform}
use cnc_robot_control.Tasks.TaskList.{Tasks}
use cnc_robot_control.Stepper.Values.{failure}

a_result :
    {A : Type 0} (P : A → Type 0) (o : Option A)
    → IsSome o
    → Always P o
    → (a : A) × (o ≡ some a) × P a
a_result P none i h = absurd i
a_result P (some a) i h = (a, refl, h)

either_IsSome :
    {A : Type 0} (b : Bool) (x y : Option A) → IsSome x → IsSome y → IsSome (if b then x else y)
either_IsSome true x y h k = h
either_IsSome false x y h k = k

module _ {D : Type 0} (d : Double D) (malloc_ok : Plant D → Bool) (e : Platform)
    (nodes : (t : Tasks) → e.threads.malloc_node_ok t ≡ true) where
  made_IsSome : (m : Machine) (s : Plant D) → Within m → IsSome (init_motors d malloc_ok e m s)
  made_IsSome m s (v, p, l, l') =
      init_motors-IsSome d malloc_ok e m s nodes p (omega (arith, v.motors_size))
        (omega (arith, v.axes_size))

  read_IsSome :
      (r : Run) (s : Plant D) (m : Machine)
      → r ≡ halted m
      → Within m
      → IsSome {A = ℤ × Machine × Plant D} (elim r [
        | halted m' ↦
            if m'.error_flag then some (failure, m', s) else init_motors d malloc_ok e m' s
        | faulted ↦ none
        | out_of_fuel ↦ none
      ])
  read_IsSome r s m q w = rw q (
      either_IsSome m.error_flag (some (failure, m, s)) (init_motors d malloc_ok e m s) tt
        (made_IsSome m s w))

  -- There is memory for the nodes of `task_list`, whose allocation the code does not test. When the calls
  -- before have begun eight sections of motors and eight of axes at most, and the file
  -- `Fits` behind them: whether it opens or not, and whatever the driver, the allocator and the threads
  -- answer, `read_motor_config` comes back, with no access outside an array or through NULL, and when
  -- its result is not negative, every entry for a motor or an axis is complete and has its object.
  pub read_motor_config-Whole :
      (opened : Bool) (file : List Line) (m : Machine) (s : Plant D)
      → m.motor_list_len ≤ 8
      → m.axis_list_len ≤ 8
      → Fits file m.motor_list_len m.axis_list_len 8
      → (r : ℤ × Machine × Plant D) × (read_motor_config d malloc_ok e opened file m s ≡ some r)
        × ReadyIfSuccess d malloc_ok r
  unfolding read_motor_config
  read_motor_config-Whole false file m s h h' f = ((failure, m, s), refl, tt)
  read_motor_config-Whole true file m s h h' f =
      let (m', halts, _, within) =
        motor_config_state_machine-Safe m.motor_list_len m.axis_list_len file h h' f in
      a_result (ReadyIfSuccess d malloc_ok) (read_motor_config d malloc_ok e true file m s)
        (read_IsSome (motor_config_state_machine m.motor_list_len m.axis_list_len file) s m' halts
          within)
        (read_motor_config-Ready d malloc_ok e true file m s)
