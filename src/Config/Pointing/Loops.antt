-- ===== src/Config/Pointing/Loops.antt =====
-- control/src/config.c: the loops of `init_motors` stay inside the arrays.
use cnc_robot_control.Common.{
  Always, true, ℕ, zero, suc, ◌≤◌, ◌<◌, ◌≡◌, inl, inr, refl, ap, Bool, List, [], ◌∷◌, Option, none,
  some, arith, Bool-cases, length, get_elem?,
}
use cnc_robot_control.Common.Int.{ℤ, pos, negsuc, ◌>>=◌}
use cnc_robot_control.Axis.Double.{Double}
use cnc_robot_control.Axis.Laws.{axis_init-lem}
use cnc_robot_control.Config.Entries.{AllOf}
use cnc_robot_control.Config.Init.{
  Plant, cons_node, make_motor, after_motor, motor_loop, collect, make_axis, after_axis, axis_loop,
  init_axes, init_motors,
}
use cnc_robot_control.Config.InitLaws.{FirstOf, MotorReady, LoopReady, motor_loop-Ready}
use cnc_robot_control.Config.Pointing.{Points, PointsTo, Pointing}
use cnc_robot_control.Config.Pointing.Motors.{make_motor-IsSome}
use cnc_robot_control.Config.Room.{IsSome}
use cnc_robot_control.Config.Types.{AxisConfig, Machine, MotorConfig, validate_axis_node}
use cnc_robot_control.Stepper.Lifecycle.{Platform}
use cnc_robot_control.Tasks.TaskList.{Tasks}

cons_node-IsSome :
    {D X : Type 0} (x : X) (o : Option (ℤ × List X × Plant D)) → IsSome o → IsSome (cons_node x o)
cons_node-IsSome x none h = absurd h
cons_node-IsSome x (some (r, xs, s)) h = tt

module _ {D : Type 0} (e : Platform) (nodes : (s : Tasks) → e.threads.malloc_node_ok s ≡ true) where
  after_motor-IsSome :
      (x : MotorConfig) (xs : List MotorConfig) (made : Option (Option ℕ × Plant D))
      (more : Plant D → Option (ℤ × List MotorConfig × Plant D))
      → IsSome made
      → ((s : Plant D) → IsSome (more s))
      → IsSome (after_motor x xs made more)
  after_motor-IsSome x xs none more m h = absurd m
  after_motor-IsSome x xs (some (none, s)) more m h = tt
  after_motor-IsSome x xs (some (some p, s)) more m h = cons_node-IsSome _ (more s) (h s)

  pub motor_loop-IsSome :
      (n : ℕ) (xs : List MotorConfig) (s : Plant D) → n ≤ length xs → IsSome (motor_loop e n xs s)
  unfolding motor_loop
  motor_loop-IsSome zero xs s h = tt
  motor_loop-IsSome (suc n) [] s h = elim h [ ]
  motor_loop-IsSome (suc n) (x ∷ xs) s h =
      after_motor-IsSome x xs (make_motor e x s) (λ s'. motor_loop e n xs s')
        (make_motor-IsSome e nodes x s) (λ s'. motor_loop-IsSome n xs s' (omega arith))

-- Each of the first entries of an array can be read.
FirstOf-read :
    (n i : ℕ) (xs : List MotorConfig)
    → FirstOf MotorReady n xs
    → i < n
    → (x : MotorConfig) × (get_elem? xs i ≡ some x)
FirstOf-read zero i xs f h = elim h [ ]
FirstOf-read (suc n) i [] f h = absurd f
FirstOf-read (suc n) zero (x ∷ xs) f h = (x, refl)
FirstOf-read (suc n) (suc i) (x ∷ xs) f h = FirstOf-read n i xs f.1 (omega arith)

-- The array of an axis is filled to its count.
collect-full :
    (n c : ℕ) (ps : List (Option ℕ)) (nodes : List MotorConfig)
    → FirstOf MotorReady n nodes
    → Points n c ps
    → (motors : List (Option ℕ)) × (collect c ps nodes ≡ some motors) × (length motors ≡ c)
unfolding collect
collect-full n zero ps nodes f h = ([], refl, refl)
collect-full n (suc c) [] nodes f h = absurd h
collect-full n (suc c) (none ∷ ps) nodes f h = absurd h
collect-full n (suc c) (some i ∷ ps) nodes f h =
    let (x, at) = FirstOf-read n i nodes f h.0 in
    let (motors, all, size) = collect-full n c ps nodes f h.1 in
    (x.motor ∷ motors, rw (at, all) refl, ap suc size)

module _ {D : Type 0} (d : Double D) (malloc_ok : Plant D → Bool) where
  make_axis-IsSome :
      (n : ℕ) (nodes : List MotorConfig) (x : AxisConfig) (s : Plant D)
      → FirstOf MotorReady n nodes
      → PointsTo n x
      → IsSome (make_axis d malloc_ok nodes x s)
  unfolding make_axis
  make_axis-IsSome n nodes x s f h = elim (Bool-cases (validate_axis_node x)) [
    | inr v ↦ rw v tt
    | inl v ↦
        let (motors, all, size) = collect-full n x.count x.motors nodes f h.1 in
        rw (v, all, axis_init-lem d (malloc_ok s) motors x.mm_rot x.count (omega (arith, size))) tt
  ]

  after_axis-IsSome :
      (x : AxisConfig) (xs : List AxisConfig) (made : Option (Option ℕ × Plant D))
      (more : Plant D → Option (ℤ × List AxisConfig × Plant D))
      → IsSome made
      → ((s : Plant D) → IsSome (more s))
      → IsSome (after_axis d malloc_ok x xs made more)
  after_axis-IsSome x xs none more m h = absurd m
  after_axis-IsSome x xs (some (none, s)) more m h = tt
  after_axis-IsSome x xs (some (some p, s)) more m h = cons_node-IsSome _ (more s) (h s)

  axis_loop-IsSome :
      (n k : ℕ) (nodes : List MotorConfig) (xs : List AxisConfig) (s : Plant D)
      → FirstOf MotorReady n nodes
      → AllOf (PointsTo n) xs
      → k ≤ length xs
      → IsSome (axis_loop d malloc_ok nodes k xs s)
  unfolding axis_loop
  axis_loop-IsSome n zero nodes xs s f h l = tt
  axis_loop-IsSome n (suc k) nodes [] s f h l = elim l [ ]
  axis_loop-IsSome n (suc k) nodes (x ∷ xs) s f h l =
      after_axis-IsSome x xs (make_axis d malloc_ok nodes x s)
        (λ s'. axis_loop d malloc_ok nodes k xs s') (make_axis-IsSome n nodes x s f h.0)
        (λ s'. axis_loop-IsSome n k nodes xs s' f h.1 (omega arith))

  bound_IsSome :
      (m : Machine) (nodes : List MotorConfig) (o : Option (ℤ × List AxisConfig × Plant D))
      → IsSome o
      → IsSome {A = ℤ × Machine × Plant D}
          (do (r, axes, s') ← o; some (r, record m { motor_list = nodes; axis_list = axes }, s'))
  bound_IsSome m nodes none i = absurd i
  bound_IsSome m nodes (some (r, axes, s)) i = tt

  -- The first loop has come to a result, and when it is not a failure, the entries are ready.
  with_motors :
      (m : Machine) (o : Option (ℤ × List MotorConfig × Plant D))
      → Pointing m
      → m.axis_list_len ≤ length m.axis_list
      → IsSome o
      → Always (λ y. LoopReady MotorReady m.motor_list_len y) o
      → IsSome (init_axes d malloc_ok m o)
  unfolding init_axes
  with_motors m none p l i r = absurd i
  with_motors m (some (negsuc k, nodes, s)) p l i r = tt
  with_motors m (some (pos k, nodes, s)) p l i r =
      bound_IsSome m nodes (axis_loop d malloc_ok nodes m.axis_list_len m.axis_list s)
        (axis_loop-IsSome m.motor_list_len m.axis_list_len nodes m.axis_list s r p l)

  -- With memory for the nodes of `task_list`, once the lists are within their arrays, and the axes name entries for motors, `init_motors`
  -- comes to a result.
  pub init_motors-IsSome :
      (e : Platform) (m : Machine) (s : Plant D)
      → ((t : Tasks) → e.threads.malloc_node_ok t ≡ true)
      → Pointing m
      → m.motor_list_len ≤ length m.motor_list
      → m.axis_list_len ≤ length m.axis_list
      → IsSome (init_motors d malloc_ok e m s)
  unfolding init_motors
  init_motors-IsSome e m s nodes p l l' =
      with_motors m (motor_loop e m.motor_list_len m.motor_list s) p l'
        (motor_loop-IsSome e nodes m.motor_list_len m.motor_list s l)
        (motor_loop-Ready e m.motor_list_len m.motor_list s)
