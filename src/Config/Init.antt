-- ===== src/Config/Init.antt =====
-- control/src/config.c: `init_motors`, `read_motor_config` and the look-ups of the objects. A pointer to a
-- motor or an axis is its number.
use cnc_robot_control.Common.{
  ℕ, zero, suc, ◌+◌, Bool, not, List, [], ◌∷◌, ◌++◌, Option, none, some, ◌==◌, if◌then◌else◌,
  length, get_elem?,
}
use cnc_robot_control.Common.Int.{ℤ, pos, negsuc, ◌>>=◌}
use cnc_robot_control.Axis.Double.{Double}
use cnc_robot_control.Axis.Object.{Axis, axis_init}
use cnc_robot_control.Config.Chars.{Bytes}
use cnc_robot_control.Config.Lookup.{get_motor_node_by_name, get_axis_node_by_name}
use cnc_robot_control.Config.Machine.{halted, faulted, out_of_fuel, motor_config_state_machine}
use cnc_robot_control.Config.Types.{
  AxisConfig, Line, Machine, MotorConfig, validate_axis_node, validate_motor_node,
}
use cnc_robot_control.Stepper.Lifecycle.{Board, Platform, stepper_init}
use cnc_robot_control.Stepper.Values.{success, failure}
use cnc_robot_control.Stepper.World.{Stepper}

-- The objects that have been made.
pub record Plant (D : Type 0) : Type 0 where
  pub board : Board
  pub motors : ℕ → Stepper
  pub next_motor : ℕ
  pub axes : List (Axis D)

-- A loop gives its result, the entries as it leaves them, and the objects.
abbrev pub cons_node :
    {D X : Type 0} → X → Option (ℤ × List X × Plant D) → Option (ℤ × List X × Plant D)
cons_node x none = none
cons_node x (some (r, xs, s)) = some (r, x ∷ xs, s)

module _ {D : Type 0} where
  abbrev pub placed : Plant D → Option Stepper × Board → Option ℕ × Plant D
  placed s (none, b) = (none, record s { board = b })
  placed s (some motor, b) = (
    some s.next_motor,
    record s {
      board = b;
      motors = λ q. if s.next_motor == q then motor else s.motors q;
      next_motor = s.next_motor + 1;
    },
  )

  -- The body of the first loop: the motor of an entry, if there is one; the outer `none` is a
  -- write through NULL.
  unfoldable pub make_motor : Platform → MotorConfig → Plant D → Option (Option ℕ × Plant D)
  make_motor e node s =
      if validate_motor_node node
      then (do
        r ←
            stepper_init e (some node.name) node.step_pin node.dir_pin node.microstep node.steps_rot
              node.direction s.board
        some (placed s r))
      else some (none, s)

  abbrev pub after_motor :
      MotorConfig
      → List MotorConfig
      → Option (Option ℕ × Plant D)
      → (Plant D → Option (ℤ × List MotorConfig × Plant D))
      → Option (ℤ × List MotorConfig × Plant D)
  after_motor node nodes none more = none
  after_motor node nodes (some (none, s)) more = some (failure, node ∷ nodes, s)
  after_motor node nodes (some (some p, s)) more =
      cons_node (record node { motor = some p }) (more s)

  -- The first loop: `n` entries are left.
  unfoldable pub motor_loop :
      Platform → ℕ → List MotorConfig → Plant D → Option (ℤ × List MotorConfig × Plant D)
  motor_loop e zero nodes s = some (success, nodes, s)
  motor_loop e (suc n) [] s = none
  motor_loop e (suc n) (node ∷ nodes) s =
      after_motor node nodes (make_motor e node s) (λ s'. motor_loop e n nodes s')

-- The local array `motors`, filled from the entries of an axis; they are as many as its places, and one
-- that is NULL is read through.
unfoldable pub collect : ℕ → List (Option ℕ) → List MotorConfig → Option (List (Option ℕ))
collect zero entries nodes = some []
collect (suc n) [] nodes = none
collect (suc n) (none ∷ entries) nodes = none
collect (suc n) (some i ∷ entries) nodes = do
  node ← get_elem? nodes i
  rest ← collect n entries nodes
  some (node.motor ∷ rest)

-- `malloc_ok` is whether there is memory for an axis.
module _ {D : Type 0} (d : Double D) (malloc_ok : Plant D → Bool) where
  abbrev pub placed_axis : Plant D → Option (Axis D) → Option ℕ × Plant D
  placed_axis s none = (none, s)
  placed_axis s (some axis) = (some (length s.axes), record s { axes = s.axes ++ axis ∷ [] })

  -- The body of the second loop. The outer `none` is an access outside an array or through NULL.
  unfoldable pub make_axis : List MotorConfig → AxisConfig → Plant D → Option (Option ℕ × Plant D)
  make_axis nodes node s =
      if validate_axis_node node
      then (do
        motors ← collect node.count node.motors nodes
        axis ← axis_init d (malloc_ok s) (some motors) node.mm_rot node.count
        some (placed_axis s axis))
      else some (none, s)

  abbrev pub after_axis :
      AxisConfig
      → List AxisConfig
      → Option (Option ℕ × Plant D)
      → (Plant D → Option (ℤ × List AxisConfig × Plant D))
      → Option (ℤ × List AxisConfig × Plant D)
  after_axis node nodes none more = none
  after_axis node nodes (some (none, s)) more = some (failure, node ∷ nodes, s)
  after_axis node nodes (some (some p, s)) more = cons_node (record node { axis = some p }) (more s)

  unfoldable pub axis_loop :
      List MotorConfig → ℕ → List AxisConfig → Plant D → Option (ℤ × List AxisConfig × Plant D)
  axis_loop motors zero nodes s = some (success, nodes, s)
  axis_loop motors (suc n) [] s = none
  axis_loop motors (suc n) (node ∷ nodes) s =
      after_axis node nodes (make_axis motors node s) (λ s'. axis_loop motors n nodes s')

  -- The second loop, on what the first has left.
  unfoldable pub init_axes :
      Machine → Option (ℤ × List MotorConfig × Plant D) → Option (ℤ × Machine × Plant D)
  init_axes m none = none
  init_axes m (some (negsuc k, nodes, s)) = some (failure, record m { motor_list = nodes }, s)
  init_axes m (some (pos k, nodes, s)) = do
    (r, axes, s') ← axis_loop nodes m.axis_list_len m.axis_list s
    some (r, record m { motor_list = nodes; axis_list = axes }, s')

  unfoldable pub init_motors : Platform → Machine → Plant D → Option (ℤ × Machine × Plant D)
  unfolding init_axes
  init_motors e m s = init_axes m (motor_loop e m.motor_list_len m.motor_list s)

  -- `m` holds the static lists before the call.
  unfoldable pub read_motor_config :
      Platform → Bool → List Line → Machine → Plant D → Option (ℤ × Machine × Plant D)
  unfolding init_motors
  read_motor_config e opened file m s =
      if not opened
      then some (failure, m, s)
      else elim (motor_config_state_machine m.motor_list_len m.axis_list_len file) [
        | halted m' ↦ if m'.error_flag then some (failure, m', s) else init_motors e m' s
        | faulted ↦ none
        | out_of_fuel ↦ none
      ]

-- NULL for a name that is not found, or for none.
unfoldable pub get_motor_by_name : Machine → Option Bytes → Option (Option ℕ)
get_motor_by_name m none = some none
get_motor_by_name m (some name) = do
  found ← get_motor_node_by_name m name
  elim found [ none ↦ some none | some i ↦ (do node ← get_elem? m.motor_list i; some node.motor) ]

unfoldable pub get_axis_by_name : Machine → Option Bytes → Option (Option ℕ)
get_axis_by_name m none = some none
get_axis_by_name m (some name) = do
  found ← get_axis_node_by_name m name
  elim found [ none ↦ some none | some i ↦ (do node ← get_elem? m.axis_list i; some node.axis) ]
