-- ===== src/Config/MotorList.antt =====
-- control/src/config.c: `state_read_motor_list`, the list of the motors of an axis.
use cnc_robot_control.Common.{
  ℕ, ◌+◌, ◌-◌, Bool, true, false, List, [], ◌∷◌, ◌++◌, Option, none, some, ltb, ◌==◌, if◌then◌else◌,
  length, get_elem?, set, drop,
}
use cnc_robot_control.Common.Int.{◌>>=◌}
use cnc_robot_control.Config.Chars.{Bytes}
use cnc_robot_control.Config.Lookup.{get_motor_node_by_name}
use cnc_robot_control.Config.Scan.{is_value_char, ends_value}
use cnc_robot_control.Config.Setters.{fail}
use cnc_robot_control.Config.Types.{
  AxisConfig, State, Message, Machine, motor_list_size_max, param_max_len,
}

-- `axis_node->motors[axis_node->count++] = motor_node`; a ninth motor is written outside the array.
add_motor_to : ℕ → List AxisConfig → ℕ → Machine → Option Machine
add_motor_to node axes at m = elim (get_elem? axes at) [
  | none ↦ none
  | some x ↦
      if ltb x.count motor_list_size_max
      then some (record m {
        axis_list =
            set axes at
              (record x { motors = set x.motors x.count (some node); count = x.count + 1 });
      })
      else none
]

unfoldable pub add_motor : ℕ → Machine → Option Machine
unfolding add_motor_to
add_motor node m =
    if m.axis_list_len == 0 then none else add_motor_to node m.axis_list (m.axis_list_len - 1) m

-- The setter of `state_read_motor_list`: the machine, and whether it stopped the loop.
unfoldable pub set_listed : Bytes → Machine → Option (Machine × Bool)
set_listed [] m = some (fail Message.abrupt_end m, true)
set_listed (c ∷ s) m = do
  found ← get_motor_node_by_name m (c ∷ s)
  elim found [
    | none ↦ some (fail (Message.motor_not_found (c ∷ s)) m, true)
    | some node ↦ (do m' ← add_motor node m; some (m', false))
  ]

-- Both loops in one recursion over the bytes from the cursor on: a comma runs the setter and begins
-- the next name; the end of the buffer runs it and then finds an empty name.
unfoldable pub list_loop : Bytes → Bytes → ℕ → Machine → Option Machine
list_loop [] text i m = do
  (m', stopped) ← set_listed text (record m { value = text; offset = i + 1 })
  if stopped
      then some m'
      else some (fail Message.abrupt_end (record m' { value = []; offset = i + 2 }))
list_loop (c ∷ cs) text i m =
    let here = record m { value = text; offset = i + 1 } in
    let more = list_loop cs (text ++ c ∷ []) (i + 1) m in
    let next = (λ (m' : Machine). list_loop cs [] (i + 1) m') in
    if is_value_char c
    then if ltb (length text) (param_max_len - 1)
      then more
      else some (fail Message.value_too_long here)
    else if c == b','
    then (do (m', stopped) ← set_listed text here; if stopped then some m' else next m')
    else if ends_value c
    then (do (m', stopped) ← set_listed text (record here { state = State.cleanup }); some m')
    else some (fail (Message.bad_value_char c) here)

unfoldable pub state_read_motor_list : Machine → Option Machine
unfolding list_loop
state_read_motor_list m = list_loop (drop m.offset m.line_buff) [] m.offset m
