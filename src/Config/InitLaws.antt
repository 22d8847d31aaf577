-- ===== src/Config/InitLaws.antt =====
-- control/src/config.c: what `init_motors` and `read_motor_config` leave when they return 0, and which
-- motors they make.
use cnc_robot_control.Common.{
  Always, ℕ, zero, suc, ◌≡◌, ◌∙◌, refl, Bool, true, false, List, [], ◌∷◌, Option, none, some,
  if◌then◌else◌, Bool-cases, Option-cases, inl, inr,
}
use cnc_robot_control.Common.Int.{ℤ, pos, negsuc, ◌>>=◌}
use cnc_robot_control.Axis.Double.{Double}
use cnc_robot_control.Axis.Object.{axis_init}
use cnc_robot_control.Config.Init.{
  Plant, cons_node, make_motor, after_motor, motor_loop, collect, make_axis, after_axis, axis_loop,
  init_axes, init_motors, read_motor_config,
}
use cnc_robot_control.Config.Machine.{Run, halted, faulted, out_of_fuel, motor_config_state_machine}
use cnc_robot_control.Config.Types.{
  AxisConfig, Line, Machine, MotorConfig, validate_axis_node, validate_motor_node,
}
use cnc_robot_control.Stepper.Lifecycle.{Platform, stepper_init}
use cnc_robot_control.Stepper.Values.{failure}
use cnc_robot_control.Stepper.World.{is_some}

-- The first entries of an array all have a property.
abbrev pub FirstOf : {X : Type 0} → (X → Type 0) → ℕ → List X → Type 0
FirstOf P zero xs = Unit
FirstOf P (suc n) [] = ⊥
FirstOf P (suc n) (x ∷ xs) = P x × FirstOf P n xs

-- A motor's entry is complete and has its object, and so for an axis.
abbrev pub MotorReady : MotorConfig → Type 0
MotorReady x = (validate_motor_node x ≡ true) × (is_some x.motor ≡ true)

abbrev pub AxisReady : AxisConfig → Type 0
AxisReady x = (validate_axis_node x ≡ true) × (is_some x.axis ≡ true)

-- The entries of a loop that does not fail.
abbrev pub LoopReady : {X D : Type 0} → (X → Type 0) → ℕ → ℤ × List X × Plant D → Type 0
LoopReady P n (pos k, xs, s) = FirstOf P n xs
LoopReady P n (negsuc k, xs, s) = Unit

module _ {D X : Type 0} where
  cons_node-Ready :
      (P : X → Type 0) (n : ℕ) (x : X) (o : Option (ℤ × List X × Plant D))
      → P x
      → Always (λ y. LoopReady P n y) o
      → Always (λ y. LoopReady P (suc n) y) (cons_node x o)
  cons_node-Ready P n x none p h = tt
  cons_node-Ready P n x (some (pos k, xs, s)) p h = (p, h)
  cons_node-Ready P n x (some (negsuc k, xs, s)) p h = tt

validate-motor :
    (x : MotorConfig) (o : Option ℕ)
    → validate_motor_node (record x { motor = o }) ≡ validate_motor_node x
unfolding validate_motor_node
validate-motor x o = refl

validate-axis :
    (x : AxisConfig) (o : Option ℕ)
    → validate_axis_node (record x { axis = o }) ≡ validate_axis_node x
unfolding validate_axis_node
validate-axis x o = refl

module _ {D : Type 0} (e : Platform) where
  -- A motor that is made has a complete entry.
  abbrev MotorMadeOf : MotorConfig → Option ℕ × Plant D → Type 0
  MotorMadeOf x (o, s) = is_some o ≡ true → validate_motor_node x ≡ true

  make_motor-MotorMadeOf :
      (x : MotorConfig) (s : Plant D) → Always (λ y. MotorMadeOf x y) (make_motor e x s)
  unfolding make_motor
  make_motor-MotorMadeOf x s = elim (Bool-cases (validate_motor_node x)) [
    | inr v ↦ rw v (λ z. z)
    | inl v ↦
        elim (Option-cases (
          stepper_init e (some x.name) x.step_pin x.dir_pin x.microstep x.steps_rot x.direction
            s.board)) [ inl q ↦ rw (v, q) tt | inr (r, q) ↦ rw (v, q) (λ z. refl) ]
  ]

  after_motor-Ready :
      (n : ℕ) (x : MotorConfig) (xs : List MotorConfig) (o : Option (Option ℕ × Plant D))
      (more : Plant D → Option (ℤ × List MotorConfig × Plant D))
      → Always (λ y. MotorMadeOf x y) o
      → ((s' : Plant D) → Always (λ y. LoopReady MotorReady n y) (more s'))
      → Always (λ y. LoopReady MotorReady (suc n) y) (after_motor x xs o more)
  after_motor-Ready n x xs none more v h = tt
  after_motor-Ready n x xs (some (none, s)) more v h = tt
  after_motor-Ready n x xs (some (some p, s)) more v h =
      cons_node-Ready MotorReady n (record x { motor = some p }) (more s)
        (validate-motor x (some p) ∙ v refl, refl) (h s)

  pub motor_loop-Ready :
      (n : ℕ) (xs : List MotorConfig) (s : Plant D)
      → Always (λ y. LoopReady MotorReady n y) (motor_loop e n xs s)
  unfolding motor_loop
  motor_loop-Ready zero xs s = tt
  motor_loop-Ready (suc n) [] s = tt
  motor_loop-Ready (suc n) (x ∷ xs) s =
      after_motor-Ready n x xs (make_motor e x s) (λ s'. motor_loop e n xs s')
        (make_motor-MotorMadeOf x s) (λ s'. motor_loop-Ready n xs s')

module _ {D : Type 0} (d : Double D) (malloc_ok : Plant D → Bool) where
  -- An axis that is made has a complete entry.
  abbrev MadeOf : AxisConfig → Option ℕ × Plant D → Type 0
  MadeOf x (o, s) = is_some o ≡ true → validate_axis_node x ≡ true

  make_axis-MadeOf :
      (nodes : List MotorConfig) (x : AxisConfig) (s : Plant D)
      → Always (λ y. MadeOf x y) (make_axis d malloc_ok nodes x s)
  unfolding make_axis
  make_axis-MadeOf nodes x s = elim (Bool-cases (validate_axis_node x)) [
    | inr v ↦ rw v (λ z. z)
    | inl v ↦ elim (Option-cases (collect x.count x.motors nodes)) [
      | inl e ↦ rw (v, e) tt
      | inr (motors, e) ↦
          elim (Option-cases (axis_init d (malloc_ok s) (some motors) x.mm_rot x.count)) [
            | inl f ↦ rw (v, e, f) tt
            | inr (axis, f) ↦ rw (v, e, f) (λ z. refl)
          ]
    ]
  ]

  after_axis-Ready :
      (n : ℕ) (x : AxisConfig) (xs : List AxisConfig) (o : Option (Option ℕ × Plant D))
      (more : Plant D → Option (ℤ × List AxisConfig × Plant D))
      → Always (λ y. MadeOf x y) o
      → ((s' : Plant D) → Always (λ y. LoopReady AxisReady n y) (more s'))
      → Always (λ y. LoopReady AxisReady (suc n) y) (after_axis d malloc_ok x xs o more)
  after_axis-Ready n x xs none more v h = tt
  after_axis-Ready n x xs (some (none, s)) more v h = tt
  after_axis-Ready n x xs (some (some p, s)) more v h =
      cons_node-Ready AxisReady n (record x { axis = some p }) (more s)
        (validate-axis x (some p) ∙ v refl, refl) (h s)

  axis_loop-Ready :
      (nodes : List MotorConfig) (n : ℕ) (xs : List AxisConfig) (s : Plant D)
      → Always (λ y. LoopReady AxisReady n y) (axis_loop d malloc_ok nodes n xs s)
  unfolding axis_loop
  axis_loop-Ready nodes zero xs s = tt
  axis_loop-Ready nodes (suc n) [] s = tt
  axis_loop-Ready nodes (suc n) (x ∷ xs) s =
      after_axis-Ready n x xs (make_axis d malloc_ok nodes x s)
        (λ s'. axis_loop d malloc_ok nodes n xs s') (make_axis-MadeOf nodes x s)
        (λ s'. axis_loop-Ready nodes n xs s')

  -- All objects of the configuration are there.
  abbrev pub AllReady : Machine → Type 0
  AllReady m =
      FirstOf MotorReady m.motor_list_len m.motor_list
      × FirstOf AxisReady m.axis_list_len m.axis_list

  abbrev pub ReadyIfSuccess : ℤ × Machine × Plant D → Type 0
  ReadyIfSuccess (pos k, m, s) = AllReady m
  ReadyIfSuccess (negsuc k, m, s) = Unit

  with_axes :
      (m : Machine) (nodes : List MotorConfig) (o : Option (ℤ × List AxisConfig × Plant D))
      → FirstOf MotorReady m.motor_list_len nodes
      → Always (λ y. LoopReady AxisReady m.axis_list_len y) o
      → Always ReadyIfSuccess
          (do (r, axes, s') ← o; some (r, record m { motor_list = nodes; axis_list = axes }, s'))
  with_axes m nodes none f h = tt
  with_axes m nodes (some (pos k, axes, s)) f h = (f, h)
  with_axes m nodes (some (negsuc k, axes, s)) f h = tt

  init_axes-Ready :
      (m : Machine) (o : Option (ℤ × List MotorConfig × Plant D))
      → Always (λ y. LoopReady MotorReady m.motor_list_len y) o
      → Always ReadyIfSuccess (init_axes d malloc_ok m o)
  unfolding init_axes
  init_axes-Ready m none h = tt
  init_axes-Ready m (some (negsuc k, nodes, s)) h = tt
  init_axes-Ready m (some (pos k, nodes, s)) h =
      with_axes m nodes (axis_loop d malloc_ok nodes m.axis_list_len m.axis_list s) h
        (axis_loop-Ready nodes m.axis_list_len m.axis_list s)

  init_motors-Ready :
      (e : Platform) (m : Machine) (s : Plant D)
      → Always ReadyIfSuccess (init_motors d malloc_ok e m s)
  unfolding init_motors
  init_motors-Ready e m s =
      init_axes-Ready m (motor_loop e m.motor_list_len m.motor_list s)
        (motor_loop-Ready e m.motor_list_len m.motor_list s)

  either-Ready :
      (b : Bool) (x y : Option (ℤ × Machine × Plant D))
      → Always ReadyIfSuccess x
      → Always ReadyIfSuccess y
      → Always ReadyIfSuccess (if b then x else y)
  either-Ready true x y h k = h
  either-Ready false x y h k = k

  run-Ready :
      (e : Platform) (s : Plant D) (r : Run)
      → Always ReadyIfSuccess (elim r [
        | halted m' ↦
            if m'.error_flag then some (failure, m', s) else init_motors d malloc_ok e m' s
        | faulted ↦ none
        | out_of_fuel ↦ none
      ])
  run-Ready e s (halted m) =
      either-Ready m.error_flag (some (failure, m, s)) (init_motors d malloc_ok e m s) tt
        (init_motors-Ready e m s)
  run-Ready e s faulted = tt
  run-Ready e s out_of_fuel = tt

  -- Whatever the file holds and whatever the driver, the allocator and the threads answer: when
  -- `read_motor_config` comes back with a result that is not negative, every entry for a motor or an
  -- axis is complete and has its object.
  pub read_motor_config-Ready :
      (e : Platform) (opened : Bool) (file : List Line) (m : Machine) (s : Plant D)
      → Always ReadyIfSuccess (read_motor_config d malloc_ok e opened file m s)
  unfolding read_motor_config
  read_motor_config-Ready e false file m s = tt
  read_motor_config-Ready e true file m s =
      run-Ready e s (motor_config_state_machine m.motor_list_len m.axis_list_len file)
