-- ===== src/Axis/Laws.antt =====
-- core/src/Axis.c: what `axis_init` accepts, against a plain description.
use cnc_robot_control.Common.{
  ℕ, zero, suc, ◌≤◌, ◌≡◌, refl, Bool, not, ◌&&◌, List, [], ◌∷◌, Option, none, some, arith, leb,
  ◌==◌, if◌then◌else◌, length, take,
}
use cnc_robot_control.Axis.Double.{Double}
use cnc_robot_control.Axis.Object.{Axis, axis_of, axis_filled, axis_init}
use cnc_robot_control.Stepper.Request.{Filled, filled, null_motor, fill_loop, cons_filled}

-- The motors of an array with no NULL in it.
abbrev cons_present : ℕ → Option (List ℕ) → Option (List ℕ)
cons_present p none = none
cons_present p (some ps) = some (p ∷ ps)

abbrev pub present : List (Option ℕ) → Option (List ℕ)
present [] = some []
present (none ∷ motors) = none
present (some p ∷ motors) = cons_present p (present motors)

abbrev filled_of : Option (List ℕ) → Filled
filled_of none = null_motor
filled_of (some ps) = filled ps

cons_filled-present :
    (p : ℕ) (o : Option (List ℕ)) → cons_filled p (filled_of o) ≡ filled_of (cons_present p o)
cons_filled-present p none = refl
cons_filled-present p (some ps) = refl

fill_loop-present :
    (room count : ℕ) (motors : List (Option ℕ))
    → count ≤ room
    → count ≤ length motors
    → fill_loop room count motors ≡ filled_of (present (take count motors))
unfolding fill_loop
fill_loop-present room zero motors r h = refl
fill_loop-present room (suc count) [] r h = elim h [ ]
fill_loop-present zero (suc count) (m ∷ motors) r h = elim r [ ]
fill_loop-present (suc room) (suc count) (none ∷ motors) r h = refl
fill_loop-present (suc room) (suc count) (some p ∷ motors) r h =
    rw (fill_loop-present room count motors (omega arith) (omega arith))
      (cons_filled-present p (present (take count motors)))

-- A positive distance for a rotation, one to eight motors, and memory.
abbrev pub is_acceptable : Bool → ℕ → ℕ → Bool
is_acceptable malloc_ok mm_per_rotation count =
    not (mm_per_rotation == 0) && (not (count == 0) && (leb count 8 && malloc_ok))

module _ {D : Type 0} (d : Double D) where
  abbrev pub axis_from : ℕ → Option (List ℕ) → Option (Axis D)
  axis_from mm none = none
  axis_from mm (some ps) = some (axis_of d ps mm)

  axis_filled-from :
      (mm : ℕ) (o : Option (List ℕ)) → axis_filled d mm (filled_of o) ≡ some (axis_from mm o)
  unfolding axis_filled
  axis_filled-from mm none = refl
  axis_filled-from mm (some ps) = refl

  -- For an array of at least `count` entries, `axis_init` gives an axis exactly if the distance is
  -- positive, there are one to eight motors and memory for the object, and none of the first `count`
  -- entries is NULL: the axis of those motors, with NULL behind them, at position and speed 0.
  pub axis_init-lem :
      (malloc_ok : Bool) (motors : List (Option ℕ)) (mm count : ℕ)
      → count ≤ length motors
      → axis_init d malloc_ok (some motors) mm count
        ≡ some (
            if is_acceptable malloc_ok mm count
            then axis_from mm (present (take count motors))
            else none)
  unfolding axis_init
  axis_init-lem malloc_ok motors mm count h =
      ground
        (arith, fill_loop-present 8 count motors, axis_filled-from mm (present (take count motors)))
