-- ===== src/Config/Outcome.antt =====
-- control/src/config.c: in which states the loop of `motor_config_state_machine` ends.
use cnc_robot_control.Common.{
  ℕ, zero, suc, ◌≡◌, ◌⊎◌, inl, inr, refl, true, false, List, [], ◌∷◌, Option, none, some, arith,
  Bool-cases, drop,
}
use cnc_robot_control.Config.Machine.{
  dispatch, step, Run, halted, faulted, out_of_fuel, run, start, motor_config_state_machine,
  enough_fuel,
}
use cnc_robot_control.Config.MotorList.{state_read_motor_list}
use cnc_robot_control.Config.Scan.{
  state_read_line, state_read_param, state_read_identifier, state_read_value,
}
use cnc_robot_control.Config.ScanLaws.{
  scan_param-ne-finished, scan_identifier-ne-finished, scan_value-ne-finished,
}
use cnc_robot_control.Config.Setters.{state_set_identifier, state_check_param}
use cnc_robot_control.Config.Setting.{set_param-Sets, list_loop-Sets}
use cnc_robot_control.Config.Termination.{Ends, motor_config_state_machine-Ends}
use cnc_robot_control.Config.Types.{State, Line, line, read_error, Machine}

-- The whole file was read with no error, or an error was met and reported.
abbrev pub Verdict : Machine → Type 0
Verdict m =
    ((m.state ≡ State.finished) × (m.error_flag ≡ false) × (m.file ≡ []))
    ⊎ ((m.state ≡ State.error) × (m.error_flag ≡ true))

record Settled (m : Machine) : Type 0 where
  running : m.stop ≡ false → m.error_flag ≡ false
  at_end : m.stop ≡ false → m.state ≡ State.finished → m.file ≡ []
  ended : m.stop ≡ true → Verdict m

abbrev SettledIf : Option Machine → Type 0
SettledIf none = Unit
SettledIf (some m) = Settled m

module _ (m : Machine) (going : m.stop ≡ false) (v : Settled m) where
  read_line-Settled : (file : List Line) → m.file ≡ file → Settled (state_read_line m)
  unfolding state_read_line
  read_line-Settled [] f = rw (f, state_read_line) (ground arith)
  read_line-Settled (read_error ∷ rest) f = rw (f, state_read_line) (ground arith)
  read_line-Settled (line text slack ∷ rest) f = rw (f, state_read_line) (ground arith)

  read_param-Settled : Settled (state_read_param m)
  unfolding state_read_param
  read_param-Settled =
      ground (arith, scan_param-ne-finished m.err_str (drop m.offset m.line_buff) [] m.offset)

  read_identifier-Settled : Settled (state_read_identifier m)
  unfolding state_read_identifier
  read_identifier-Settled =
      ground (arith, scan_identifier-ne-finished m.err_str (drop m.offset m.line_buff) [] m.offset)

  read_value-Settled : Settled (state_read_value m)
  unfolding state_read_value
  read_value-Settled =
      ground (arith, scan_value-ne-finished m.err_str (drop m.offset m.line_buff) [] m.offset)

  check_param-Settled : Settled (state_check_param m)
  unfolding state_check_param
  check_param-Settled = ground arith

  set_identifier-Settled : Settled (state_set_identifier m)
  unfolding state_set_identifier
  set_identifier-Settled = ground arith

  dispatch-Settled : (s : State) → m.state ≡ s → SettledIf (dispatch s m)
  unfolding dispatch
  dispatch-Settled State.read_line s = read_line-Settled m.file refl
  dispatch-Settled State.read_param s = read_param-Settled
  dispatch-Settled State.read_identifier s = read_identifier-Settled
  dispatch-Settled State.set_identifier s = set_identifier-Settled
  dispatch-Settled State.check_param s = check_param-Settled
  dispatch-Settled State.read_value s = read_value-Settled
  dispatch-Settled State.set_param s = ground (arith, set_param-Sets m)
  dispatch-Settled State.read_motor_list s =
      unfold state_read_motor_list in
      ground (arith, list_loop-Sets (drop m.offset m.line_buff) [] m.offset m s)
  dispatch-Settled State.finished s = ground arith
  dispatch-Settled State.cleanup s = ground arith
  dispatch-Settled State.error s = ground arith

abbrev pub VerdictIf : Run → Type 0
VerdictIf (halted m) = Verdict m
VerdictIf _ = Unit

next_round :
    (fuel : ℕ) (o : Option Machine)
    → ((m : Machine) → Settled m → VerdictIf (run fuel m))
    → SettledIf o
    → VerdictIf (elim o [ none ↦ faulted | some m ↦ run fuel m ])
next_round fuel none ih v = tt
next_round fuel (some m) ih v = ih m v

run-Verdict : (fuel : ℕ) (m : Machine) → Settled m → VerdictIf (run fuel m)
unfolding run
run-Verdict zero m v = tt
run-Verdict (suc fuel) m v = elim (Bool-cases m.stop) [
  | inl halt ↦ rw (halt, run) (v.ended halt)
  | inr go ↦
      rw (go, run)
        (next_round fuel (step m) (run-Verdict fuel)
          (unfold step in dispatch-Settled m go v m.state refl))
]

-- What a run comes to: the verdict of the machine in which it halted, or an access outside an array.
abbrev pub Concludes : Run → Type 0
Concludes (halted m) = Verdict m
Concludes faulted = Unit
Concludes out_of_fuel = ⊥

concluded : (r : Run) → Ends r → VerdictIf r → Concludes r
concluded (halted m) e v = v
concluded faulted e v = tt
concluded out_of_fuel e v = e

-- Every run comes to an end, and when it is not by an access outside an array, it has read the whole
-- file with no error, or it stands in `error` with its error flag set; there is no third way.
pub motor_config_state_machine-Verdict :
    (motors axes : ℕ) (file : List Line) → Concludes (motor_config_state_machine motors axes file)
motor_config_state_machine-Verdict motors axes file =
    concluded (motor_config_state_machine motors axes file)
      (motor_config_state_machine-Ends motors axes file)
      (unfold motor_config_state_machine in
        run-Verdict (enough_fuel file) (start motors axes file) (ground arith))
