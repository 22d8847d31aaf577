-- ===== src/Config/Progress.antt =====
-- control/src/config.c: each round of the state machine brings it nearer to its end.
use cnc_robot_control.Common.{
  ℕ, ◌+◌, ◌-◌, ◌*◌, ◌≤◌, ◌<◌, ◌≡◌, refl, false, List, [], ◌∷◌, ◌++◌, Option, none, some, arith,
  if◌then◌else◌, length, get_elem?, drop,
}
use cnc_robot_control.Config.Chars.{Bytes}
use cnc_robot_control.Config.Machine.{dispatch, step}
use cnc_robot_control.Config.MotorList.{state_read_motor_list}
use cnc_robot_control.Config.Scan.{
  state_read_line, state_read_param, state_read_identifier, state_read_value,
}
use cnc_robot_control.Config.ScanLaws.{
  scan_param-Stops, scan_identifier-Stops, scan_value-Stops, get_elem?-drop,
}
use cnc_robot_control.Config.Setting.{set_param-Sets, list_loop-Sets}
use cnc_robot_control.Config.Setters.{state_set_identifier, state_check_param, state_set_param}
use cnc_robot_control.Config.Types.{State, Line, line, read_error, Machine}

-- The most rounds that the machine may still make from a state, within its line and behind it.
abbrev pub rank : State → ℕ
rank State.read_param = 7
rank State.read_identifier = 6
rank State.check_param = 6
rank State.set_identifier = 5
rank State.read_value = 5
rank State.read_motor_list = 5
rank State.set_param = 4
rank State.cleanup = 3
rank State.read_line = 2
rank State.finished = 1
rank State.error = 1

abbrev pub rounds : Machine → ℕ
rounds m = if m.stop then 0 else 6 * length m.file + rank m.state

-- The terminator of the line is at position `k`, and a state that reads on has not passed it; a new line
-- begins with the cursor at its start.
abbrev pub Ahead : ℕ → State → Machine → Type 0
Ahead k State.read_line m = m.offset ≡ 0
Ahead k State.read_param m = (m.offset ≤ k) × (get_elem? m.line_buff k ≡ some 0)
Ahead k State.read_identifier m = (m.offset ≤ k) × (get_elem? m.line_buff k ≡ some 0)
Ahead k State.check_param m = (m.offset ≤ k) × (get_elem? m.line_buff k ≡ some 0)
Ahead k State.read_value m = (m.offset ≤ k) × (get_elem? m.line_buff k ≡ some 0)
Ahead k _ m = Unit

-- A round of the machine: the terminator stays ahead, and the rounds left grow fewer.
abbrev pub Advances : ℕ → Machine → Machine → Type 0
Advances k m m' = Ahead k m'.state m' × (rounds m' < rounds m)

zero_ahead :
    (k n : ℕ) (bs : Bytes)
    → n ≤ k
    → get_elem? bs k ≡ some 0
    → get_elem? (drop n bs) (k - n) ≡ some 0
zero_ahead k n bs h z =
    let e : n + (k - n) ≡ k = omega arith in rw (get_elem?-drop n (k - n) bs, e) z

read_param-Advances :
    (k : ℕ) (m : Machine)
    → m.state ≡ State.read_param
    → m.stop ≡ false
    → Ahead k State.read_param m
    → Advances k m (state_read_param m)
unfolding state_read_param
read_param-Advances k m s r (h, z) = ground (
  arith,
  scan_param-Stops m.err_str (drop m.offset m.line_buff) [] m.offset (k - m.offset) k
      (zero_ahead k m.offset m.line_buff h z),
)

read_identifier-Advances :
    (k : ℕ) (m : Machine)
    → m.state ≡ State.read_identifier
    → m.stop ≡ false
    → Ahead k State.read_identifier m
    → Advances k m (state_read_identifier m)
unfolding state_read_identifier
read_identifier-Advances k m s r (h, z) = ground (
  arith,
  scan_identifier-Stops m.err_str (drop m.offset m.line_buff) [] m.offset (k - m.offset) k
      (zero_ahead k m.offset m.line_buff h z),
)

read_value-Advances :
    (k : ℕ) (m : Machine)
    → m.state ≡ State.read_value
    → m.stop ≡ false
    → Ahead k State.read_value m
    → Advances k m (state_read_value m)
unfolding state_read_value
read_value-Advances k m s r (h, z) = ground (
  arith,
  scan_value-Stops m.err_str (drop m.offset m.line_buff) [] m.offset (k - m.offset) k
      (zero_ahead k m.offset m.line_buff h z),
)

check_param-Advances :
    (k : ℕ) (m : Machine)
    → m.state ≡ State.check_param
    → m.stop ≡ false
    → Ahead k State.check_param m
    → Advances k m (state_check_param m)
unfolding state_check_param
check_param-Advances k m s r h = ground arith

set_identifier-Advances :
    (k : ℕ) (m : Machine)
    → m.state ≡ State.set_identifier
    → m.stop ≡ false
    → Advances k m (state_set_identifier m)
unfolding state_set_identifier
set_identifier-Advances k m s r = ground arith

get_elem?-terminator : (text slack : Bytes) → get_elem? (text ++ (0 ∷ slack)) (length text) ≡ some 0
get_elem?-terminator [] slack = refl
get_elem?-terminator (c ∷ text) slack = get_elem?-terminator text slack

abbrev pub AdvancesIf : ℕ → Machine → Option Machine → Type 0
AdvancesIf k m none = Unit
AdvancesIf k m (some m') = Advances k m m'

read_motor_list-Advances :
    (k : ℕ) (m : Machine)
    → m.state ≡ State.read_motor_list
    → m.stop ≡ false
    → AdvancesIf k m (state_read_motor_list m)
unfolding state_read_motor_list
read_motor_list-Advances k m s r =
    ground (arith, list_loop-Sets (drop m.offset m.line_buff) [] m.offset m s)

set_param-Advances :
    (k : ℕ) (m : Machine)
    → m.state ≡ State.set_param
    → m.stop ≡ false
    → AdvancesIf k m (state_set_param m)
set_param-Advances k m s r = ground (arith, set_param-Sets m)

-- A new line brings a new terminator.
read_line-Advances :
    (file : List Line) (m : Machine)
    → m.file ≡ file
    → m.state ≡ State.read_line
    → m.stop ≡ false
    → m.offset ≡ 0
    → (k : ℕ) × Advances k m (state_read_line m)
unfolding state_read_line
read_line-Advances [] m f s r o = (0, rw (f, state_read_line) (ground arith))
read_line-Advances (read_error ∷ rest) m f s r o = (0, rw (f, state_read_line) (ground arith))
read_line-Advances (line text slack ∷ rest) m f s r o =
    (length text, rw (f, state_read_line) (ground (arith, o, get_elem?-terminator text slack)))

dispatch-Advances :
    (k : ℕ) (s : State) (m : Machine)
    → m.state ≡ s
    → m.stop ≡ false
    → Ahead k s m
    → (k' : ℕ) × AdvancesIf k' m (dispatch s m)
unfolding dispatch
dispatch-Advances k State.read_line m s r a = read_line-Advances m.file m refl s r a
dispatch-Advances k State.read_param m s r a = (k, read_param-Advances k m s r a)
dispatch-Advances k State.read_identifier m s r a = (k, read_identifier-Advances k m s r a)
dispatch-Advances k State.set_identifier m s r a = (k, set_identifier-Advances k m s r)
dispatch-Advances k State.check_param m s r a = (k, check_param-Advances k m s r a)
dispatch-Advances k State.read_value m s r a = (k, read_value-Advances k m s r a)
dispatch-Advances k State.set_param m s r a = (k, set_param-Advances k m s r)
dispatch-Advances k State.read_motor_list m s r a = (k, read_motor_list-Advances k m s r)
dispatch-Advances k State.finished m s r a = (k, ground arith)
dispatch-Advances k State.cleanup m s r a = (k, ground arith)
dispatch-Advances k State.error m s r a = (k, ground arith)

-- A round that is no fault keeps a terminator ahead and leaves fewer rounds to make.
pub step-Advances :
    (k : ℕ) (m : Machine) → m.stop ≡ false → Ahead k m.state m → (k' : ℕ) × AdvancesIf k' m (step m)
unfolding step
step-Advances k m r a = dispatch-Advances k m.state m refl r a
