-- ===== src/Axis/MotionLaws.antt =====
-- core/src/Axis.c: what `axis_move` does, from the call to the end of the motors' thread.
use cnc_robot_control.Common.{
  ℕ, ◌≡◌, ◌∙◌, refl, ap, true, false, List, [], ◌∷◌, ◌++◌, Option, some, arith, if◌then◌else◌,
  length, Bool-cases, inl, inr,
}
use cnc_robot_control.Common.Int.{ℤ}
use cnc_robot_control.Axis.DirectionLaws.{
  AllTurnable, SetsLines, turned_all, motors-turned_all, axis_set_direction-success,
}
use cnc_robot_control.Axis.Double.{Double}
use cnc_robot_control.Axis.Motion.{reset_direction, turn_back}
use cnc_robot_control.Axis.Object.{Axis}
use cnc_robot_control.Stepper.CountLaws.{AllRange}
use cnc_robot_control.Stepper.SpeedLaws.{pointers}
use cnc_robot_control.Stepper.StepLaws.{Grants}
use cnc_robot_control.Stepper.Values.{
  direction_positive, direction_negative, is_valid_direction_rel,
}
use cnc_robot_control.Stepper.World.{Stepper, World, Env}

-- The driver, the allocator and the threads grant all that they are asked for, at any time.
pub record Obliging (env : Env) : Type 0 where
  pub sets : SetsLines env
  pub blocks : (w : World) → env.malloc_block_ok w ≡ true
  pub bulks : (w : World) (bulk : List ℕ) → env.request_bulk_ok w bulk ≡ true
  pub mutexes : (w : World) → env.malloc_mutex_ok w ≡ true
  pub inits : (w : World) → env.mutex_init_ok w ≡ true

pub Obliging-Grants : (env : Env) (w : World) (ps : List ℕ) → Obliging env → Grants env w ps
Obliging-Grants env w ps o = (o.blocks _, o.bulks _ _, o.mutexes _, o.inits _)

-- A motor that has been turned at most.
abbrev pub Alike : Stepper → Stepper → Type 0
Alike s s' =
    (s'.steps ≡ s.steps)
    × (s'.stop ≡ s.stop)
    × (s'.shared_mutex ≡ s.shared_mutex)
    × (s'.microsteps_per_rotation ≡ s.microsteps_per_rotation)
    × (s'.pos_direction ≡ s.pos_direction)

turned_all-Alike :
    (direction : ℤ) (ps : List ℕ) (w : World) (q : ℕ)
    → Alike (w.motors q) ((turned_all direction ps w).motors q)
turned_all-Alike direction ps w q = ground (arith, motors-turned_all direction ps w q)

Alike-then : (s s' s'' : Stepper) → Alike s s' → Alike s' s'' → Alike s s''
Alike-then s s' s'' (a, b, c, e, f) (a', b', c', e', f') = (a' ∙ a, b' ∙ b, c' ∙ c, e' ∙ e, f' ∙ f)

abbrev pub AllAlike : World → World → Type 0
AllAlike w w' = (q : ℕ) → Alike (w.motors q) (w'.motors q)

pub AllTurnable-Alike :
    (ps : List ℕ) (w w' : World) → AllAlike w w' → AllTurnable ps w → AllTurnable ps w'
AllTurnable-Alike [] w w' l a = tt
AllTurnable-Alike (p ∷ ps) w w' l ((m, v), rest) =
    let (_, _, c, _, f) = l p in ((c ∙ m, rw f v), AllTurnable-Alike ps w w' l rest)

pub AllRange-Alike :
    (k : ℕ) (ps : List ℕ) (w w' : World)
    → AllAlike w w'
    → AllRange k ps w.motors
    → AllRange k ps w'.motors
AllRange-Alike k ps w w' l h q e = rw ((l q).0) (h q e)

-- The world in which a move starts: after a direction that was changed for the last move has been set
-- back, and the motors have been turned for a negative distance.
abbrev pub after_reset : {D : Type 0} → Axis D → List ℕ → World → World
after_reset a ps w = if a.reset_dir then turned_all direction_positive ps w else w

abbrev pub before_start : {D : Type 0} → Double D → Axis D → D → List ℕ → World → World
before_start d a distance ps w =
    if d.lt distance d.zero_double
    then turned_all direction_negative ps (after_reset a ps w)
    else after_reset a ps w

-- The distance without its sign.
abbrev pub magnitude : {D : Type 0} → Double D → D → D
magnitude d distance = if d.lt distance d.zero_double then d.negate distance else distance

pub after_reset-Alike :
    {D : Type 0} (a : Axis D) (ps : List ℕ) (w : World) → AllAlike w (after_reset a ps w)
after_reset-Alike a ps w q = ground (arith, turned_all-Alike direction_positive ps w q)

pub before_start-Alike :
    {D : Type 0} (d : Double D) (a : Axis D) (distance : D) (ps : List ℕ) (w : World)
    → AllAlike w (before_start d a distance ps w)
before_start-Alike d a distance ps w q = ground (
  arith,
  after_reset-Alike a ps w q,
  turned_all-Alike direction_negative ps (after_reset a ps w) q,
)

kept_dir : {D : Type 0} (a : Axis D) → a.reset_dir ≡ false → a ≡ record a { reset_dir = false }
kept_dir a e = ap (λ b. record a { reset_dir = b }) e

module _ {D : Type 0} (env : Env) (a : Axis D) (ps : List ℕ) (rest : List (Option ℕ))
    (w : World) where
  pub reset_direction-lem :
      a.motors ≡ pointers ps ++ rest
      → a.num_motors ≡ length ps
      → Obliging env
      → AllTurnable ps w
      → reset_direction env a w ≡ some (true, record a { reset_dir = false }, after_reset a ps w)
  unfolding reset_direction is_valid_direction_rel
  reset_direction-lem m n o t =
      let a' = record a { reset_dir = false } in
      elim (Bool-cases a.reset_dir) [
        | inl e ↦
            rw
              (
                e,
                (axis_set_direction-success env a' direction_positive w ps rest m n o.sets refl
                    t).0,
              )
              refl
        | inr e ↦ rw e refl
      ]

  pub turn_back-lem :
      (d : Double D) (distance : D)
      → a.motors ≡ pointers ps ++ rest
      → a.num_motors ≡ length ps
      → a.reset_dir ≡ false
      → Obliging env
      → AllTurnable ps w
      → turn_back d env a distance w
        ≡ some (
          true,
          magnitude d distance,
          record a { reset_dir = d.lt distance d.zero_double },
          if d.lt distance d.zero_double then turned_all direction_negative ps w else w,
        )
  unfolding turn_back is_valid_direction_rel
  turn_back-lem d distance m n e o t =
      let a' = record a { reset_dir = true } in
      elim (Bool-cases (d.lt distance d.zero_double)) [
        | inl l ↦
            rw
              (
                l,
                (axis_set_direction-success env a' direction_negative w ps rest m n o.sets refl
                    t).0,
              )
              refl
        | inr l ↦ rw l (ap (λ x. some (true, distance, x, w)) (kept_dir a e))
      ]
