-- ===== src/Config/Lines.antt =====
-- control/src/config.c: what a well-formed line does to the state machine.
use native.Mathlib.Nat.{suc-add}
use cnc_robot_control.Common.{
  ℕ, zero, suc, ◌+◌, ◌<◌, ◌≡◌, ◌∙◌, refl, ap, true, false, List, [], ◌∷◌, ◌++◌, Option, some, arith,
  length, drop,
}
use cnc_robot_control.Common.Int.{◌>>=◌}
use cnc_robot_control.Config.Chars.{Bytes, codes, strncmp_eq}
use cnc_robot_control.Config.Machine.{step}
use cnc_robot_control.Config.Scan.{state_read_param, state_read_value, is_value_char, ends_value}
use cnc_robot_control.Config.ScanLaws.{All, is_param_char, scan_param-text, scan_value-text}
use cnc_robot_control.Config.Setters.{motor_params, axis_params, match_param, state_check_param}
use cnc_robot_control.Config.Types.{State, Identifiers, Params, Machine, param_max_len}

-- Rounds of the loop one after the other.
abbrev pub steps : ℕ → Machine → Option Machine
steps zero m = some m
steps (suc n) m = step m >>= steps n

-- The table of the parameters of a section.
abbrev pub table_of : Identifiers → List (Bytes × ℕ × Params)
table_of Identifiers.motor = motor_params
table_of Identifiers.axis = axis_params
table_of Identifiers.invalid_type = []

drop-append_length : (xs ys : Bytes) (y : ℕ) → drop (length xs + 1) (xs ++ (y ∷ ys)) ≡ ys
drop-append_length [] ys y = refl
drop-append_length (x ∷ xs) ys y = rw suc-add (drop-append_length xs ys y)

read_name :
    (m : Machine) (name rest : Bytes)
    → m.offset ≡ 0
    → m.line_buff ≡ name ++ (b'=' ∷ rest)
    → All is_param_char name
    → length name < param_max_len
    → state_read_param m
      ≡ record m { state = State.check_param; param = name; offset = length name + 1 }
unfolding state_read_param
read_name m name rest o b a h =
    rw (o, b, state_read_param) (ground (arith, scan_param-text m.err_str name [] rest 0 a))

read_text :
    (m : Machine) (name v rest : Bytes) (c : ℕ)
    → m.offset ≡ length name + 1
    → m.line_buff ≡ name ++ (b'=' ∷ (v ++ (c ∷ rest)))
    → All is_value_char v
    → is_value_char c ≡ false
    → ends_value c ≡ true
    → length v < param_max_len
    → state_read_value m
      ≡ record m { state = State.set_param; value = v; offset = length name + 1 + length v + 1 }
unfolding state_read_value
read_text m name v rest c o b a k d h =
    rw (o, b, state_read_value, drop-append_length name (v ++ (c ∷ rest)) b'=')
      (ground (arith, scan_value-text m.err_str v [] rest c (length name + 1) a k d))

check_name :
    (m : Machine) (id : Params) (s : Identifiers)
    → m.last_id ≡ s
    → strncmp_eq m.param (codes "motors") 6 ≡ false
    → match_param m.param (table_of s) ≡ some id
    → state_check_param m ≡ record m { state = State.read_value; param_id = id }
unfolding state_check_param
check_name m id Identifiers.motor e k f = ground arith
check_name m id Identifiers.axis e k f = ground arith
check_name m id Identifiers.invalid_type e k f = absurd (unfold match_param in ground arith)

module _ (m : Machine) where
  step-read_param : m.state ≡ State.read_param → step m ≡ some (state_read_param m)
  unfolding step
  step-read_param s = rw s

  step-check_param : m.state ≡ State.check_param → step m ≡ some (state_check_param m)
  unfolding step
  step-check_param s = rw s

  step-read_value : m.state ≡ State.read_value → step m ≡ some (state_read_value m)
  unfolding step
  step-read_value s = rw s

-- A line `name=value`, with a name and a value of less than 32 bytes of their alphabets, and the name
-- that of a parameter of the open section but not of the list of motors, brings the machine in three
-- rounds to `set_param` with that parameter and that value, and changes nothing else. The value ends
-- at a blank, a comment or the end of the line.
pub assignment_line :
    (m : Machine) (name v rest : Bytes) (c : ℕ) (id : Params)
    → m.state ≡ State.read_param
    → m.offset ≡ 0
    → m.line_buff ≡ name ++ (b'=' ∷ (v ++ (c ∷ rest)))
    → All is_param_char name
    → length name < param_max_len
    → strncmp_eq name (codes "motors") 6 ≡ false
    → match_param name (table_of m.last_id) ≡ some id
    → All is_value_char v
    → length v < param_max_len
    → is_value_char c ≡ false
    → ends_value c ≡ true
    → steps 3 m
      ≡ some (record m {
        state = State.set_param;
        param = name;
        param_id = id;
        value = v;
        offset = length name + 1 + length v + 1;
      })
assignment_line m name v rest c id s o b an hn k f av hv kc d =
    let m1 = record m { state = State.check_param; param = name; offset = length name + 1 } in
    let m2 = record m1 { state = State.read_value; param_id = id } in
    let e1 = step-read_param m s ∙ ap some (read_name m name (v ++ (c ∷ rest)) o b an hn) in
    let e2 = step-check_param m1 refl ∙ ap some (check_name m1 id m.last_id refl k f) in
    let e3 = step-read_value m2 refl ∙ ap some (read_text m2 name v rest c refl b av kc d hv) in
    rw (e1, e2, e3)
