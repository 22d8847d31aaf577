-- ===== src/Config/Bound/Spare.antt =====
-- control/src/config.c: the room that is left in the arrays.
use cnc_robot_control.Common.{
  ℕ, zero, suc, ◌-◌, ◌≤◌, ◌<◌, ◌≡◌, inl, inr, refl, Bool, true, false, not, ◌&&◌, List, Option,
  none, some, arith, ◌==◌, if◌then◌else◌, Option-cases, Bool-cases, get_elem?, set,
  get_elem?-set_ne, replicate,
}
use cnc_robot_control.Config.Chars.{str_to_int, str_to_dir, is_positive, direction_invalid}
use cnc_robot_control.Config.Room.{RoomIn, get_elem?-set_same}
use cnc_robot_control.Config.Setters.{
  copy_name, fail, set_motor, set_axis, set_pin, set_param_of, state_set_param,
}
use cnc_robot_control.Config.Types.{
  MotorConfig, AxisConfig, State, Params, Message, Machine, update_last, empty_axis, motor_name_len,
  axis_name_len,
}
use cnc_robot_control.Gpio.Pins.{int_to_gpio_pin, invalid_pin}
use cnc_robot_control.Stepper.Values.{is_valid_microstep}

-- Both lists stay inside their arrays, the open axis has room for `room` motors more, and the entries
-- behind it are empty.
pub record Spare (room motors axes : ℕ) (axis_list : List AxisConfig) : Type 0 where
  pub few_motors : motors ≤ 8
  pub few_axes : axes ≤ 8
  pub open_room : 0 < axes → RoomIn room (get_elem? axis_list (axes - 1))
  pub unused : (i : ℕ) → axes ≤ i → i < 8 → RoomIn 8 (get_elem? axis_list i)

abbrev pub HasSpare : ℕ → Machine → Type 0
HasSpare room m = Spare room m.motor_list_len m.axis_list_len m.axis_list

replicate-RoomIn : (n i : ℕ) → i < n → RoomIn 8 (get_elem? (replicate n empty_axis) i)
replicate-RoomIn zero i h = elim h [ ]
replicate-RoomIn (suc n) zero h = omega arith
replicate-RoomIn (suc n) (suc i) h = replicate-RoomIn n i (omega arith)

pub empty-Spare :
    (motors axes : ℕ) → motors ≤ 8 → axes ≤ 8 → Spare 8 motors axes (replicate 8 empty_axis)
empty-Spare motors axes h h' = record {
  few_motors = h;
  few_axes = h';
  open_room = λ p. replicate-RoomIn 8 (axes - 1) (omega arith);
  unused = λ i l k. replicate-RoomIn 8 i k;
}

-- An entry that is written keeps its count.
module _ (room i : ℕ) where
  abbrev pub RoomKept : Machine → Option Machine → Type 0
  RoomKept m none = Unit
  RoomKept m (some m') =
      RoomIn room (get_elem? m.axis_list i) → RoomIn room (get_elem? m'.axis_list i)

  set-RoomIn :
      (xs : List AxisConfig) (j : ℕ) (x y : AxisConfig)
      → get_elem? xs j ≡ some x
      → y.count ≡ x.count
      → RoomIn room (get_elem? xs i)
      → RoomIn room (get_elem? (set xs j y) i)
  set-RoomIn xs j x y e c h = elim (Bool-cases (j == i)) [
    | inl s ↦
        let same : i ≡ j = ground (arith, s) in
        rw (same, get_elem?-set_same xs j x y e)
          (let h' : RoomIn room (some x) = rw (same, e) at h in omega arith)
    | inr s ↦ rw (get_elem?-set_ne xs {i = j} {j = i} y (ground (arith, s))) h
  ]

  set_motor-RoomKept : (f : MotorConfig → MotorConfig) (m : Machine) → RoomKept m (set_motor f m)
  unfolding set_motor
  set_motor-RoomKept f m = elim (Option-cases (update_last m.motor_list m.motor_list_len f)) [
    | inl e ↦ rw e tt
    | inr (xs, e) ↦ rw e (λ h. h)
  ]

  set_axis-RoomKept :
      (f : AxisConfig → AxisConfig) (m : Machine)
      → ((x : AxisConfig) → (f x).count ≡ x.count)
      → RoomKept m (set_axis f m)
  unfolding set_axis update_last
  set_axis-RoomKept f m same = elim (Bool-cases (m.axis_list_len == 0)) [
    | inl z ↦ rw z tt
    | inr z ↦ elim (Option-cases (get_elem? m.axis_list (m.axis_list_len - 1))) [
      | inl e ↦ rw (z, e) tt
      | inr (x, e) ↦
          rw (z, e) (λ h. set-RoomIn m.axis_list (m.axis_list_len - 1) x (f x) e (same x) h)
    ]
  ]

  choose-RoomKept :
      (m : Machine) (b : Bool) (x y : Option Machine)
      → RoomKept m x
      → RoomKept m y
      → RoomKept m (if b then x else y)
  choose-RoomKept m true x y h k = h
  choose-RoomKept m false x y h k = k

  failed : (msg : Message) (m : Machine) → RoomKept m (some (fail msg m))
  failed msg m h = h

  set_pin-RoomKept :
      (put : ℕ → MotorConfig → MotorConfig) (msg : Message) (m : Machine)
      → RoomKept m (set_pin put msg m)
  unfolding set_pin
  set_pin-RoomKept put msg m =
      let pin = int_to_gpio_pin (str_to_int m.value) in
      let refused = some (fail msg m) in
      let done = set_motor (put pin) m in
      let inner =
        choose-RoomKept m (pin == invalid_pin) refused done (failed msg m)
          (set_motor-RoomKept (put pin) m) in
      choose-RoomKept m (is_positive (str_to_int m.value))
        (if pin == invalid_pin then refused else done) (some (fail (Message.bad_number m.value) m))
        inner (failed (Message.bad_number m.value) m)

  set_param_of-RoomKept : (id : Params) (m : Machine) → RoomKept m (set_param_of id m)
  unfolding set_param_of
  set_param_of-RoomKept Params.motor_name m =
      set_motor-RoomKept (λ x. record x { name = copy_name motor_name_len m.value }) m
  set_param_of-RoomKept Params.step_pin m =
      set_pin-RoomKept (λ pin x. record x { step_pin = pin }) (Message.bad_step_pin m.value) m
  set_param_of-RoomKept Params.dir_pin m =
      set_pin-RoomKept (λ pin x. record x { dir_pin = pin }) (Message.bad_dir_pin m.value) m
  set_param_of-RoomKept Params.steps_rot m =
      let temp = str_to_int m.value in
      let put : MotorConfig → MotorConfig = λ x. record x { steps_rot = temp } in
      choose-RoomKept m (is_positive temp) (set_motor put m)
        (some (fail (Message.bad_steps_rot m.value) m)) (set_motor-RoomKept put m)
        (failed (Message.bad_steps_rot m.value) m)
  set_param_of-RoomKept Params.direction m =
      let temp = str_to_dir m.value in
      let put : MotorConfig → MotorConfig = λ x. record x { direction = temp } in
      choose-RoomKept m (not (temp == direction_invalid)) (set_motor put m)
        (some (fail (Message.bad_direction m.value) m)) (set_motor-RoomKept put m)
        (failed (Message.bad_direction m.value) m)
  set_param_of-RoomKept Params.microstep m =
      let temp = str_to_int m.value in
      let put : MotorConfig → MotorConfig = λ x. record x { microstep = temp } in
      choose-RoomKept m (is_positive temp && is_valid_microstep temp) (set_motor put m)
        (some (fail (Message.bad_microstep m.value) m)) (set_motor-RoomKept put m)
        (failed (Message.bad_microstep m.value) m)
  set_param_of-RoomKept Params.axis_name m =
      set_axis-RoomKept (λ x. record x { name = copy_name axis_name_len m.value }) m (λ x. refl)
  set_param_of-RoomKept Params.motor_list m = λ h. h
  set_param_of-RoomKept Params.mm_rot m =
      let temp = str_to_int m.value in
      let put : AxisConfig → AxisConfig = λ x. record x { mm_rot = temp } in
      choose-RoomKept m (is_positive temp) (set_axis put m)
        (some (fail (Message.bad_number m.value) m)) (set_axis-RoomKept put m (λ x. refl))
        (failed (Message.bad_number m.value) m)
  set_param_of-RoomKept Params.invalid_param m = λ h. h

  pub set_param-RoomKept : (m : Machine) → RoomKept m (state_set_param m)
  unfolding state_set_param
  set_param-RoomKept m = set_param_of-RoomKept m.param_id (record m { state = State.cleanup })
