-- ===== src/Axis/SpeedLaws.antt =====
-- core/src/Axis.c: what `axis_set_speed` and `axis_get_position` do.
use cnc_robot_control.Common.{
  ℕ, suc, ◌+◌, ◌≤◌, ◌<◌, ◌≡◌, refl, true, false, List, ◌∷◌, ◌++◌, Option, some, arith, length,
}
use cnc_robot_control.Axis.Double.{Double}
use cnc_robot_control.Axis.Motion.{axis_set_speed}
use cnc_robot_control.Axis.MoveLaws.{steps_for, mm_to_steps-first}
use cnc_robot_control.Axis.Object.{Axis}
use cnc_robot_control.Stepper.SpeedLaws.{
  AllFree, half_period_of, pointers, retimed, stepper_set_speed_multiple-rest,
  stepper_set_speed_multiple-stopped,
}
use cnc_robot_control.Stepper.Values.{success, failure}
use cnc_robot_control.Stepper.World.{World, stepper_is_busy}

module _ {D : Type 0} (d : Double D) (a : Axis D) (w : World) (mm_per_sec : D) where
  -- A speed that is positive and gives at least one step in a second, for an axis of one to eight motors
  -- that are all free: the call succeeds, the axis has that speed, and the motors have the half period
  -- of that many steps, limited to `MAX_PPS`.
  pub axis_set_speed-success :
      (p pps : ℕ) (ps : List ℕ) (rest : List (Option ℕ))
      → a.motors ≡ pointers (p ∷ ps) ++ rest
      → a.num_motors ≡ length (p ∷ ps)
      → length (p ∷ ps) ≤ 8
      → d.le mm_per_sec d.zero_double ≡ false
      → steps_for d a (w.motors p) mm_per_sec ≡ some pps
      → 0 < pps
      → AllFree (p ∷ ps) w
      → axis_set_speed d (some a) mm_per_sec w
        ≡ some (
          success,
          some (record a { speed = mm_per_sec }),
          retimed (half_period_of pps) (p ∷ ps) w,
        )
  unfolding axis_set_speed
  axis_set_speed-success p pps ps rest m n l z s h f =
      rw
        (
          z,
          mm_to_steps-first d a p ps rest w mm_per_sec m,
          s,
          m,
          n,
          stepper_set_speed_multiple-rest (p ∷ ps) rest pps w h (omega arith) l f,
        )
        refl

  -- A busy motor of the axis: the call fails and the axis keeps its speed, but the motors before the busy
  -- one have the new half period.
  pub axis_set_speed-busy :
      (p q n pps : ℕ) (ps : List ℕ) (rest : List (Option ℕ))
      → a.motors ≡ pointers (p ∷ ps) ++ (some q ∷ rest)
      → a.num_motors ≡ length (p ∷ ps) + suc n
      → length (p ∷ ps) + suc n ≤ 8
      → d.le mm_per_sec d.zero_double ≡ false
      → steps_for d a (w.motors p) mm_per_sec ≡ some pps
      → 0 < pps
      → AllFree (p ∷ ps) w
      → stepper_is_busy w q ≡ true
      → axis_set_speed d (some a) mm_per_sec w
        ≡ some (failure, some a, retimed (half_period_of pps) (p ∷ ps) w)
  unfolding axis_set_speed
  axis_set_speed-busy p q n pps ps rest m k l z s h f b =
      rw
        (
          z,
          mm_to_steps-first d a p ps (some q ∷ rest) w mm_per_sec m,
          s,
          m,
          k,
          stepper_set_speed_multiple-stopped (p ∷ ps) rest n q pps w h l f b,
        )
        refl
