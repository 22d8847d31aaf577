-- ===== src/Config/Bound/Runs.antt =====
-- control/src/config.c: a file that fits is read to a verdict, with no access outside an array.
use cnc_robot_control.Common.{
  ℕ, zero, suc, ◌≤◌, ◌≡◌, inl, inr, refl, List, Option, none, some, Bool-cases,
}
use cnc_robot_control.Config.Bound.{Fits}
use cnc_robot_control.Config.Bound.Next.{Next, Goes}
use cnc_robot_control.Config.Bound.Rounds.{step-Goes}
use cnc_robot_control.Config.Bound.Spare.{HasSpare, empty-Spare}
use cnc_robot_control.Config.Invariant.{Inv, InvIf, step-Inv, start-Inv}
use cnc_robot_control.Config.Machine.{
  step, Run, halted, faulted, out_of_fuel, run, enough_fuel, start, motor_config_state_machine,
}
use cnc_robot_control.Config.Outcome.{Verdict, Concludes, motor_config_state_machine-Verdict}
use cnc_robot_control.Config.Pointing.{Pointing, PointingIf}
use cnc_robot_control.Config.Pointing.Rounds.{step-Pointing, start-Pointing}
use cnc_robot_control.Config.Types.{Line, Machine}

-- Both lists are within their arrays, and the axes name entries for motors.
abbrev pub Within : Machine → Type 0
Within m = Inv m × Pointing m × (m.motor_list_len ≤ 8) × (m.axis_list_len ≤ 8)

abbrev NoFault : Run → Type 0
NoFault (halted m) = Within m
NoFault faulted = ⊥
NoFault out_of_fuel = Unit

one_more :
    (fuel : ℕ) (o : Option Machine)
    → ((m : Machine) (room : ℕ)
        → Inv m
        → Pointing m
        → HasSpare room m
        → Next m.state m room
        → NoFault (run fuel m))
    → InvIf o
    → PointingIf o
    → Goes o
    → NoFault (elim o [ none ↦ faulted | some m ↦ run fuel m ])
one_more fuel none ih v p g = g
one_more fuel (some m) ih v p (room, s, n) = ih m room v p s n

run-NoFault :
    (fuel : ℕ) (m : Machine) (room : ℕ)
    → Inv m
    → Pointing m
    → HasSpare room m
    → Next m.state m room
    → NoFault (run fuel m)
unfolding run
run-NoFault zero m room v p s n = tt
run-NoFault (suc fuel) m room v p s n = elim (Bool-cases m.stop) [
  | inl halt ↦ rw (halt, run) (v, p, s.few_motors, s.few_axes)
  | inr go ↦
      rw (go, run)
        (one_more fuel (step m) (run-NoFault fuel) (step-Inv m v) (step-Pointing m p)
          (step-Goes m v room s n))
]

no_fault :
    (r : Run) → NoFault r → Concludes r → (m : Machine) × (r ≡ halted m) × Verdict m × Within m
no_fault (halted m) n v = (m, refl, v, n)
no_fault faulted n v = absurd n
no_fault out_of_fuel n v = absurd v

-- A file that opens no more than eight sections of motors and eight of axes, with those of the calls
-- before, and lists in each axis eight motors at most, and none before the first axis, is read with no
-- access outside an array: the run halts with the whole file read and no error, or with an error
-- reported, both lists are within their arrays, and every motor that an axis names is an entry below
-- `motor_list_len`.
pub motor_config_state_machine-Safe :
    (motors axes : ℕ) (file : List Line)
    → motors ≤ 8
    → axes ≤ 8
    → Fits file motors axes 8
    → (m : Machine) × (motor_config_state_machine motors axes file ≡ halted m)
      × Verdict m
      × Within m
motor_config_state_machine-Safe motors axes file h h' f =
    no_fault (motor_config_state_machine motors axes file)
      (unfold motor_config_state_machine start in
        run-NoFault (enough_fuel file) (start motors axes file) 8 (start-Inv motors axes file)
          (start-Pointing motors axes file) (empty-Spare motors axes h h') f)
      (motor_config_state_machine-Verdict motors axes file)
