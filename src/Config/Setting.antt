-- ===== src/Config/Setting.antt =====
-- control/src/config.c: what the setters leave alone, and the states in which they end.
use cnc_robot_control.Common.{
  ℕ, ◌+◌, ◌-◌, ◌≡◌, ◌⊎◌, inl, inr, Bool, List, [], ◌∷◌, ◌++◌, Option, none, some, arith,
  if◌then◌else◌, Option-cases, length, length-set, get_elem?, set,
}
use cnc_robot_control.Config.Chars.{Bytes}
use cnc_robot_control.Config.MotorList.{add_motor, set_listed, list_loop}
use cnc_robot_control.Config.Setters.{set_motor, set_axis, state_set_param}
use cnc_robot_control.Config.Types.{MotorConfig, AxisConfig, State, Machine, update_last}

-- The same place in the file, the same section, and lists of the same lengths.
abbrev pub Keeps : Machine → Machine → Type 0
Keeps m m' =
    (m'.file ≡ m.file)
    × (m'.stop ≡ m.stop)
    × (m'.error_flag ≡ m.error_flag)
    × (m'.last_id ≡ m.last_id)
    × (m'.param_id ≡ m.param_id)
    × (m'.motor_list_len ≡ m.motor_list_len)
    × (m'.axis_list_len ≡ m.axis_list_len)
    × (length m'.motor_list ≡ length m.motor_list)
    × (length m'.axis_list ≡ length m.axis_list)

abbrev pub Sets : Machine → Option Machine → Type 0
Sets m none = Unit
Sets m (some m') = Keeps m m' × ((m'.state ≡ State.cleanup) ⊎ (m'.state ≡ State.error))

abbrev SameLength {ℓ} : {A : Type ℓ} → List A → Option (List A) → Type 0
SameLength xs none = Unit
SameLength xs (some ys) = length ys ≡ length xs

update_last-SameLength {ℓ} :
    {A : Type ℓ} (xs : List A) (len : ℕ) (f : A → A) → SameLength xs (update_last xs len f)
unfolding update_last
update_last-SameLength xs len f = elim (Option-cases (get_elem? xs (len - 1))) [
  | inl e ↦ ground arith
  | inr (x, e) ↦ ground (arith, length-set xs (len - 1) (f x))
]

abbrev KeepsIf : Machine → Option Machine → Type 0
KeepsIf m none = Unit
KeepsIf m (some m') = Keeps m m' × (m'.state ≡ m.state)

set_motor-Keeps : (f : MotorConfig → MotorConfig) (m : Machine) → KeepsIf m (set_motor f m)
unfolding set_motor
set_motor-Keeps f m = ground (arith, update_last-SameLength m.motor_list m.motor_list_len f)

set_axis-Keeps : (f : AxisConfig → AxisConfig) (m : Machine) → KeepsIf m (set_axis f m)
unfolding set_axis
set_axis-Keeps f m = ground (arith, update_last-SameLength m.axis_list m.axis_list_len f)

pub set_param-Sets : (m : Machine) → Sets m (state_set_param m)
unfolding state_set_param
set_param-Sets m = grind (arith, set_motor-Keeps, set_axis-Keeps)

abbrev Listed : Machine → Option (Machine × Bool) → Type 0
Listed m none = Unit
Listed m (some (m', b)) = Keeps m m' × (m'.state ≡ (if b then State.error else m.state))

add_motor-Keeps : (node : ℕ) (m : Machine) → KeepsIf m (add_motor node m)
unfolding add_motor
add_motor-Keeps node m = elim (Option-cases (get_elem? m.axis_list (m.axis_list_len - 1))) [
  | inl e ↦ ground arith
  | inr (x, e) ↦
      let put = record x { motors = set x.motors x.count (some node); count = x.count + 1 } in
      ground (arith, length-set m.axis_list (m.axis_list_len - 1) put)
]

set_listed-Listed : (text : Bytes) (m : Machine) → Listed m (set_listed text m)
unfolding set_listed
set_listed-Listed [] m = ground arith
set_listed-Listed (c ∷ s) m = grind (arith, add_motor-Keeps)

pub list_loop-Sets :
    (bs text : Bytes) (i : ℕ) (m : Machine)
    → m.state ≡ State.read_motor_list
    → Sets m (list_loop bs text i m)
unfolding list_loop
list_loop-Sets [] text i m s =
    ground (arith, set_listed-Listed text (record m { value = text; offset = i + 1 }))
list_loop-Sets (c ∷ cs) text i m s =
    let here = record m { value = text; offset = i + 1 } in
    let after = set_listed-Listed text here in
    elim (Option-cases (set_listed text here)) [
      | inl e ↦ ground (
        arith,
        list_loop-Sets cs (text ++ c ∷ []) (i + 1) m s,
        set_listed-Listed text (record here { state = State.cleanup }),
      )
      | inr (r, e) ↦ ground (
        arith,
        rw e at after,
        list_loop-Sets cs (text ++ c ∷ []) (i + 1) m s,
        list_loop-Sets cs [] (i + 1) r.0,
        set_listed-Listed text (record here { state = State.cleanup }),
      )
    ]
