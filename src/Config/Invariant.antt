-- ===== src/Config/Invariant.antt =====
-- control/src/config.c: what holds of the state machine between two rounds.
use cnc_robot_control.Common.{
  zero, suc, ℕ, ◌<◌, ◌≡◌, inl, inr, refl, List, [], ◌∷◌, Option, none, some, arith, Bool-cases,
  length, drop,
}
use cnc_robot_control.Common.Int.{◌>>=◌}
use cnc_robot_control.Config.Chars.{Bytes, strncmp_eq}
use cnc_robot_control.Config.Machine.{dispatch, step, start}
use cnc_robot_control.Config.Lines.{steps}
use cnc_robot_control.Config.MotorList.{state_read_motor_list}
use cnc_robot_control.Config.Scan.{
  state_read_line, state_read_param, state_read_identifier, state_read_value,
}
use cnc_robot_control.Config.Setters.{
  motor_params, axis_params, match_param, state_set_identifier, state_check_param,
}
use cnc_robot_control.Config.Setting.{set_param-Sets, list_loop-Sets}
use cnc_robot_control.Config.Types.{State, Identifiers, Params, Line, line, read_error, Machine}

-- The parameters of a motor, and those of an axis that `state_set_param` writes.
abbrev pub IsMotorParam : Params → Type 0
IsMotorParam Params.motor_name = Unit
IsMotorParam Params.step_pin = Unit
IsMotorParam Params.dir_pin = Unit
IsMotorParam Params.steps_rot = Unit
IsMotorParam Params.direction = Unit
IsMotorParam Params.microstep = Unit
IsMotorParam _ = ⊥

abbrev pub IsAxisParam : Params → Type 0
IsAxisParam Params.axis_name = Unit
IsAxisParam Params.mm_rot = Unit
IsAxisParam _ = ⊥

-- The arrays keep their size, a section of a type has an entry, and a parameter to be set is one of
-- a section that was begun.
pub record Inv (m : Machine) : Type 0 where
  pub motors_size : length m.motor_list ≡ 8
  pub axes_size : length m.axis_list ≡ 8
  pub motor_begun : m.last_id ≡ Identifiers.motor → 0 < m.motor_list_len
  pub axis_begun : m.last_id ≡ Identifiers.axis → 0 < m.axis_list_len
  pub motor_owned : IsMotorParam m.param_id → 0 < m.motor_list_len
  pub axis_owned : IsAxisParam m.param_id → 0 < m.axis_list_len

abbrev pub InvIf : Option Machine → Type 0
InvIf none = Unit
InvIf (some m) = Inv m

abbrev AllIds : (Params → Type 0) → List (Bytes × ℕ × Params) → Type 0
AllIds P [] = Unit
AllIds P ((name, len, id) ∷ rest) = P id × AllIds P rest

abbrev IdIf : (Params → Type 0) → Option Params → Type 0
IdIf P none = Unit
IdIf P (some id) = P id

match_param-IdIf :
    (P : Params → Type 0) (text : Bytes) (table : List (Bytes × ℕ × Params))
    → AllIds P table
    → IdIf P (match_param text table)
unfolding match_param
match_param-IdIf P text [] h = tt
match_param-IdIf P text ((name, len, id) ∷ rest) h = elim (Bool-cases (strncmp_eq text name len)) [
  | inl hit ↦ rw (hit, match_param) h.0
  | inr miss ↦ rw (miss, match_param) (match_param-IdIf P text rest h.1)
]

abbrev IsListOrAxisParam : Params → Type 0
IsListOrAxisParam Params.motor_list = Unit
IsListOrAxisParam id = IsAxisParam id

check_param-Inv : (m : Machine) → Inv m → Inv (state_check_param m)
unfolding state_check_param
check_param-Inv m v =
    let own = match_param-IdIf IsMotorParam m.param motor_params (ground arith) in
    let own' = match_param-IdIf IsListOrAxisParam m.param axis_params (ground arith) in
    ground (arith, own, own')

read_line-Inv : (file : List Line) (m : Machine) → m.file ≡ file → Inv m → Inv (state_read_line m)
unfolding state_read_line
read_line-Inv [] m f v = rw (f, state_read_line) (ground arith)
read_line-Inv (read_error ∷ rest) m f v = rw (f, state_read_line) (ground arith)
read_line-Inv (line text slack ∷ rest) m f v = rw (f, state_read_line) (ground arith)

dispatch-Inv : (s : State) (m : Machine) → m.state ≡ s → Inv m → InvIf (dispatch s m)
unfolding dispatch
dispatch-Inv State.read_line m s v = read_line-Inv m.file m refl v
dispatch-Inv State.read_param m s v = unfold state_read_param in ground arith
dispatch-Inv State.read_identifier m s v = unfold state_read_identifier in ground arith
dispatch-Inv State.set_identifier m s v = unfold state_set_identifier in ground arith
dispatch-Inv State.check_param m s v = check_param-Inv m v
dispatch-Inv State.read_value m s v = unfold state_read_value in ground arith
dispatch-Inv State.set_param m s v = ground (arith, set_param-Sets m)
dispatch-Inv State.read_motor_list m s v =
    unfold state_read_motor_list in
    ground (arith, list_loop-Sets (drop m.offset m.line_buff) [] m.offset m s)
dispatch-Inv State.finished m s v = ground arith
dispatch-Inv State.cleanup m s v = ground arith
dispatch-Inv State.error m s v = ground arith

-- Every round that is no fault keeps the invariant.
pub step-Inv : (m : Machine) → Inv m → InvIf (step m)
unfolding step
step-Inv m v = dispatch-Inv m.state m refl v

pub start-Inv : (motors axes : ℕ) (file : List Line) → Inv (start motors axes file)
unfolding start
start-Inv motors axes file = record {
  motors_size = refl;
  axes_size = refl;
  motor_begun = λ e. ground (arith, e);
  axis_begun = λ e. ground (arith, e);
  motor_owned = λ h. absurd h;
  axis_owned = λ h. absurd h;
}

next-Inv :
    (n : ℕ) (o : Option Machine)
    → ((m : Machine) → Inv m → InvIf (steps n m))
    → InvIf o
    → InvIf (o >>= steps n)
next-Inv n none k h = tt
next-Inv n (some m) k h = k m h

rounds-Inv : (n : ℕ) (m : Machine) → Inv m → InvIf (steps n m)
rounds-Inv zero m v = v
rounds-Inv (suc n) m v = next-Inv n (step m) (rounds-Inv n) (step-Inv m v)

-- After any number of rounds on any file, unless a round has left an array: both lists have their
-- eight entries, the section that was opened last has an entry, and a parameter that is to be set
-- belongs to a section that was begun.
steps-Inv : (n motors axes : ℕ) (file : List Line) → InvIf (steps n (start motors axes file))
steps-Inv n motors axes file = rounds-Inv n (start motors axes file) (start-Inv motors axes file)
