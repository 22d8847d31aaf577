-- ===== src/Axis/MoveLaws.antt =====
-- core/src/Axis.c: what `axis_move` does, from the call to the end of the motors' thread.
use cnc_robot_control.Common.{
  ℕ, suc, ◌≤◌, ◌<◌, ◌^◌, ◌≡◌, ◌∙◌, refl, ap, false, List, ◌∷◌, ◌++◌, Option, some, if◌then◌else◌,
  length,
}
use cnc_robot_control.Common.Int.{pos}
use cnc_robot_control.Axis.DirectionLaws.{AllTurnable, turned_all}
use cnc_robot_control.Axis.Double.{Double}
use cnc_robot_control.Axis.Motion.{start_move, turn_and_start, axis_move}
use cnc_robot_control.Axis.MotionLaws.{
  Obliging, Obliging-Grants, AllTurnable-Alike, AllRange-Alike, after_reset, before_start,
  magnitude, after_reset-Alike, before_start-Alike, reset_direction-lem, turn_back-lem,
}
use cnc_robot_control.Axis.Object.{Axis, first_microsteps, mm_to_steps}
use cnc_robot_control.Stepper.CountLaws.{AllRange, Distinct, any_stop}
use cnc_robot_control.Stepper.MoveLaws.{Moved, move-Moved}
use cnc_robot_control.Stepper.PulseLaws.{idle}
use cnc_robot_control.Stepper.Pulser.{motor_pulser}
use cnc_robot_control.Stepper.Request.{stepper_step_multiple}
use cnc_robot_control.Stepper.SpeedLaws.{pointers}
use cnc_robot_control.Stepper.StepLaws.{stepper_step_multiple-rest}
use cnc_robot_control.Stepper.TakenLaws.{any_stop-same}
use cnc_robot_control.Stepper.Values.{success, direction_negative}
use cnc_robot_control.Stepper.World.{Stepper, World, Env, is_some}

-- The number of steps of an axis for a distance, from the motor that counts.
abbrev pub steps_for : {D : Type 0} → Double D → Axis D → Stepper → D → Option ℕ
steps_for d a s mm =
    d.to_uint (d.div (d.mul mm (d.of_uint s.microsteps_per_rotation)) a.mm_per_rotation)

pub mm_to_steps-first :
    {D : Type 0} (d : Double D) (a : Axis D) (p : ℕ) (ps : List ℕ) (rest : List (Option ℕ))
    (w : World) (mm : D)
    → a.motors ≡ pointers (p ∷ ps) ++ rest
    → mm_to_steps d a w mm ≡ steps_for d a (w.motors p) mm
unfolding mm_to_steps first_microsteps
mm_to_steps-first d a p ps rest w mm m = rw m refl

start_move-started :
    {D : Type 0} (d : Double D) (env : Env) (a : Axis D) (p n : ℕ) (ps : List ℕ)
    (rest : List (Option ℕ)) (w w1 : World) (distance : D)
    → a.motors ≡ pointers (p ∷ ps) ++ rest
    → a.num_motors ≡ length (p ∷ ps)
    → length (p ∷ ps) ≤ 8
    → steps_for d a (w.motors p) distance ≡ some n
    → stepper_step_multiple env (some (pointers (p ∷ ps))) n (pos (length (p ∷ ps))) w
      ≡ some (success, w1)
    → start_move d env a distance w ≡ some (success, some a, w1)
unfolding start_move
start_move-started d env a p n ps rest w w1 distance m k l s r =
    rw
      (
        mm_to_steps-first d a p ps rest w distance m,
        s,
        m,
        k,
        stepper_step_multiple-rest env p ps rest n w l,
        r,
      )
      refl

turn_and_start-lem :
    {D : Type 0} (d : Double D) (env : Env) (a : Axis D) (ps : List ℕ) (rest : List (Option ℕ))
    (w : World) (distance : D)
    → a.motors ≡ pointers ps ++ rest
    → a.num_motors ≡ length ps
    → a.reset_dir ≡ false
    → Obliging env
    → AllTurnable ps w
    → turn_and_start d env a distance w
      ≡ start_move d env
          (record a { reset_dir = d.lt distance d.zero_double })
          (magnitude d distance)
          (if d.lt distance d.zero_double then turned_all direction_negative ps w else w)
unfolding turn_and_start
turn_and_start-lem d env a ps rest w distance m n e o t =
    rw (turn_back-lem env a ps rest w d distance m n e o t) refl

axis_move-starts :
    {D : Type 0} (d : Double D) (env : Env) (a : Axis D) (ps : List ℕ) (rest : List (Option ℕ))
    (w : World) (distance : D)
    → d.eq distance d.zero_double ≡ false
    → a.motors ≡ pointers ps ++ rest
    → a.num_motors ≡ length ps
    → Obliging env
    → AllTurnable ps w
    → axis_move d env (some a) distance w
      ≡ start_move d env
          (record a { reset_dir = d.lt distance d.zero_double })
          (magnitude d distance)
          (before_start d a distance ps w)
unfolding axis_move
axis_move-starts d env a ps rest w distance z m n o t =
    rw (z, reset_direction-lem env a ps rest w m n o t)
      (turn_and_start-lem d env (record a { reset_dir = false }) ps rest (after_reset a ps w)
        distance m n refl o
        (AllTurnable-Alike ps w (after_reset a ps w) (after_reset-Alike a ps w) t))

-- Moving an axis of one to eight distinct motors, none of them busy or with a stop to come, by a distance
-- that is not 0 and gives at least one and less than 2 ^ 32 steps, for which the counters have room,
-- with all that is asked for granted and no other thread in between. The call succeeds; the thread of
-- the first motor then ends within as many rounds as there are steps; and from the motors as they are
-- when they have been turned (back to positive if a move before had changed the direction, and then to
-- negative for a negative distance), each has made that many steps in its direction and is free again.
-- The axis remembers whether it has turned the motors for this move.
pub axis_move-Moved :
    {D : Type 0} (d : Double D) (env : Env) (a : Axis D) (p n fuel : ℕ) (ps : List ℕ)
    (rest : List (Option ℕ)) (w : World) (distance : D)
    → d.eq distance d.zero_double ≡ false
    → a.motors ≡ pointers (p ∷ ps) ++ rest
    → a.num_motors ≡ length (p ∷ ps)
    → steps_for d a (w.motors p) (magnitude d distance) ≡ some (suc n)
    → Obliging env
    → AllTurnable (p ∷ ps) w
    → n < fuel
    → suc n < 2 ^ 32
    → length (p ∷ ps) ≤ 8
    → Distinct (p ∷ ps)
    → AllRange (suc n) (p ∷ ps) w.motors
    → any_stop (p ∷ ps) w.motors ≡ false
    → (w1 w2 : World) × (axis_move d env (some a) distance w
        ≡ some (success, some (record a { reset_dir = d.lt distance d.zero_double }), w1))
      × (motor_pulser fuel idle p w1 ≡ some (some w2))
      × Moved (suc n) p ps (before_start d a distance (p ∷ ps) w) w2
axis_move-Moved d env a p n fuel ps rest w distance z m k s o t f u l dist r st =
    let w0 = before_start d a distance (p ∷ ps) w in
    let alike = before_start-Alike d a distance (p ∷ ps) w in
    let (w1, w2, starts, runs, moved) =
      move-Moved env n fuel p ps w0 f u l dist (AllRange-Alike (suc n) (p ∷ ps) w w0 alike r)
        (any_stop-same (p ∷ ps) w0.motors w.motors (λ q. (alike q).1) ∙ st)
        (ap is_some ((alike p).2 ∙ (t.0).0)) (Obliging-Grants env w0 (p ∷ ps) o) in
    (
      w1,
      w2,
      axis_move-starts d env a (p ∷ ps) rest w distance z m k o t
          ∙ start_move-started d env (record a { reset_dir = d.lt distance d.zero_double }) p
              (suc n) ps rest w0 w1 (magnitude d distance) m k l
              (ap
                  (λ (m : ℕ).
                    d.to_uint
                      (d.div (d.mul (magnitude d distance) (d.of_uint m)) a.mm_per_rotation))
                  (alike p).3
                ∙ s)
              starts,
      runs,
      moved,
    )
