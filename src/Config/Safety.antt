-- ===== src/Config/Safety.antt =====
-- control/src/config.c: when a round of the state machine stays inside its arrays, and when not.
use cnc_robot_control.Common.{
  ℕ, zero, suc, ◌+◌, ◌-◌, ◌≤◌, ◌<◌, ◌≡◌, refl, true, false, List, [], ◌∷◌, ◌++◌, append_assoc,
  append-nil, ◌∙◌, ◌||◌, none, some, arith, ◌==◌, length, length-append, get_elem?, drop,
}
use cnc_robot_control.Config.Chars.{Bytes}
use cnc_robot_control.Config.Invariant.{Inv}
use cnc_robot_control.Config.Lookup.{get_motor_node_by_name}
use cnc_robot_control.Config.Machine.{dispatch, step}
use cnc_robot_control.Config.MotorList.{add_motor, set_listed, list_loop, state_read_motor_list}
use cnc_robot_control.Config.Room.{IsSome, get_elem?-IsSome, HasRoom, commas, list_loop-IsSome}
use cnc_robot_control.Config.Scan.{is_value_char, ends_value}
use cnc_robot_control.Config.ScanLaws.{All}
use cnc_robot_control.Config.Setters.{set_motor, set_axis, state_set_param}
use cnc_robot_control.Config.Types.{
  MotorConfig, AxisConfig, State, Machine, update_last, param_max_len,
}

update_last-IsSome {ℓ} :
    {A : Type ℓ} (xs : List A) (len : ℕ) (f : A → A)
    → 0 < len
    → len ≤ length xs
    → IsSome (update_last xs len f)
unfolding update_last
update_last-IsSome xs len f p h = ground (arith, get_elem?-IsSome xs (len - 1))

module _ (m : Machine) where
  set_motor-IsSome :
      (f : MotorConfig → MotorConfig)
      → 0 < m.motor_list_len
      → m.motor_list_len ≤ length m.motor_list
      → IsSome (set_motor f m)
  unfolding set_motor
  set_motor-IsSome f p h = ground (arith, update_last-IsSome m.motor_list m.motor_list_len f p h)

  set_axis-IsSome :
      (f : AxisConfig → AxisConfig)
      → 0 < m.axis_list_len
      → m.axis_list_len ≤ length m.axis_list
      → IsSome (set_axis f m)
  unfolding set_axis
  set_axis-IsSome f p h = ground (arith, update_last-IsSome m.axis_list m.axis_list_len f p h)

module _ (m : Machine) (v : Inv m) (few : m.motor_list_len ≤ 8) (few' : m.axis_list_len ≤ 8) where
  pub set_param-IsSome : IsSome (state_set_param m)
  unfolding state_set_param
  set_param-IsSome = grind (arith, set_motor-IsSome, set_axis-IsSome)

  dispatch-IsSome :
      (s : State)
      → m.state ≡ s
      → (s ≡ State.read_motor_list → HasRoom (suc (commas (drop m.offset m.line_buff))) m)
      → IsSome (dispatch s m)
  unfolding dispatch
  dispatch-IsSome State.set_param e r = set_param-IsSome
  dispatch-IsSome State.read_motor_list e r =
      unfold state_read_motor_list in
      list_loop-IsSome (drop m.offset m.line_buff) [] m.offset m (r refl)
  dispatch-IsSome _ e r = tt

  -- With the invariant and at most eight motors and eight axes, a round leaves no array, if the open
  -- axis, where a list of motors is to be read, has room for the motors that it names.
  pub step-IsSome :
      (m.state ≡ State.read_motor_list → HasRoom (suc (commas (drop m.offset m.line_buff))) m)
      → IsSome (step m)
  unfolding step
  step-IsSome r = dispatch-IsSome m.state refl r

get_elem?-none {ℓ} : {A : Type ℓ} (xs : List A) (i : ℕ) → length xs ≤ i → get_elem? xs i ≡ none
get_elem?-none [] i h = refl
get_elem?-none (x ∷ xs) zero h = elim h [ ]
get_elem?-none (x ∷ xs) (suc i) h = get_elem?-none xs i (omega arith)

-- A ninth motor: every parameter of it is written outside the array.
pub set_motor-none :
    (f : MotorConfig → MotorConfig) (m : Machine)
    → length m.motor_list < m.motor_list_len
    → set_motor f m ≡ none
unfolding set_motor update_last
set_motor-none f m h =
    ground (arith, get_elem?-none m.motor_list (m.motor_list_len - 1) (omega arith))

set_listed-none :
    (c : ℕ) (s : Bytes) (m : Machine) (i : ℕ)
    → m.axis_list_len ≡ 0
    → get_motor_node_by_name m (c ∷ s) ≡ some (some i)
    → set_listed (c ∷ s) m ≡ none
unfolding set_listed add_motor
set_listed-none c s m i z e = ground arith

same_lookup :
    (m : Machine) (text : Bytes) (i : ℕ) (s : State) (name : Bytes)
    → get_motor_node_by_name (record m { value = text; offset = i; state = s }) name
      ≡ get_motor_node_by_name m name
unfolding get_motor_node_by_name
same_lookup m text i s name = refl

-- A list of motors before any axis, which `state_check_param` lets through in the section of a motor:
-- as soon as one of its names is found, the entry before `axis_list` is written.
pub list_loop-none :
    (v text rest : Bytes) (c i j : ℕ) (m : Machine)
    → All is_value_char v
    → is_value_char c ≡ false
    → (c == b',' || ends_value c) ≡ true
    → 0 < length text + length v
    → length text + length v < param_max_len
    → m.axis_list_len ≡ 0
    → get_motor_node_by_name m (text ++ v) ≡ some (some j)
    → list_loop (v ++ c ∷ rest) text i m ≡ none
unfolding list_loop
list_loop-none [] [] rest c i j m a k d p h z e = absurd (omega arith)
list_loop-none [] (t ∷ text) rest c i j m a k d p h z e =
    let here = record m { value = t ∷ text; offset = i + 1 } in
    let e' : get_motor_node_by_name m (t ∷ text) ≡ some (some j) = rw append-nil at e in
    ground (
      arith,
      set_listed-none t text here j z (same_lookup m (t ∷ text) (i + 1) m.state (t ∷ text) ∙ e'),
      set_listed-none t text (record here { state = State.cleanup }) j z
          (same_lookup m (t ∷ text) (i + 1) State.cleanup (t ∷ text) ∙ e'),
    )
list_loop-none (x ∷ v) text rest c i j m a k d p h z e = ground (
  arith,
  list_loop-none v (text ++ x ∷ []) rest c (i + 1) j m a.1 k d,
  length-append text (x ∷ []),
  append_assoc text (x ∷ []) v,
)
