-- ===== src/Config/Termination.antt =====
-- control/src/config.c: the loop of `motor_config_state_machine` ends on every file.
use cnc_robot_control.Common.{
  ℕ, zero, suc, ◌≤◌, ◌<◌, ◌≡◌, inl, inr, true, List, Option, none, some, arith, Bool-cases,
}
use cnc_robot_control.Config.Machine.{
  step, Run, halted, faulted, out_of_fuel, run, enough_fuel, start, motor_config_state_machine,
}
use cnc_robot_control.Config.Progress.{Ahead, AdvancesIf, rounds, step-Advances}
use cnc_robot_control.Config.Types.{Line, Machine}

-- A run that ended by the test of the loop, or at an access outside an array.
abbrev pub Ends : Run → Type 0
Ends (halted m) = m.stop ≡ true
Ends faulted = Unit
Ends out_of_fuel = ⊥

next_round :
    (fuel k : ℕ) (m : Machine) (o : Option Machine)
    → ((k' : ℕ) (m' : Machine) → Ahead k' m'.state m' → rounds m' < fuel → Ends (run fuel m'))
    → rounds m ≤ fuel
    → AdvancesIf k m o
    → Ends (elim o [ none ↦ faulted | some m' ↦ run fuel m' ])
next_round fuel k m none ih h a = tt
next_round fuel k m (some m') ih h (a, b) = ih k m' a (omega arith)

run-Ends : (fuel k : ℕ) (m : Machine) → Ahead k m.state m → rounds m < fuel → Ends (run fuel m)
unfolding run
run-Ends zero k m a h = elim h [ ]
run-Ends (suc fuel) k m a h = elim (Bool-cases m.stop) [
  | inl halt ↦ rw (halt, run) halt
  | inr go ↦
      let (k', b) = step-Advances k m go a in
      rw (go, run) (next_round fuel k' m (step m) (run-Ends fuel) (omega arith) b)
]

-- On every file, and whatever the lists hold from an earlier call, the state machine comes to its end
-- within six rounds for a line and four more: it never loops for ever.
pub motor_config_state_machine-Ends :
    (motors axes : ℕ) (file : List Line) → Ends (motor_config_state_machine motors axes file)
unfolding motor_config_state_machine
motor_config_state_machine-Ends motors axes file =
    run-Ends (enough_fuel file) 0 (start motors axes file) tt (omega arith)
