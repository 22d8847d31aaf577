-- ===== src/Axis/ThereAndBack.antt =====
-- core/src/Axis.c: moving an axis there and back.
use mathlib.Core.Path.{subst}
use cnc_robot_control.Common.{
  ℕ, suc, ◌+◌, ◌≤◌, ◌<◌, ◌^◌, ◌≡◌, ◌∙◌, refl, ap, Bool, true, false, List, ◌∷◌, ◌++◌, Option, some,
  arith, if◌then◌else◌, length,
}
use cnc_robot_control.Common.Int.{ℤ}
use cnc_robot_control.Axis.DirectionLaws.{facing, AllTurnable, turned_all, motors-turned_all}
use cnc_robot_control.Axis.Double.{Double}
use cnc_robot_control.Axis.Motion.{axis_move}
use cnc_robot_control.Axis.MotionLaws.{Obliging, before_start}
use cnc_robot_control.Axis.MoveLaws.{steps_for, axis_move-Moved}
use cnc_robot_control.Axis.Object.{Axis}
use cnc_robot_control.Axis.ReturnLaws.{
  AllPositive, MovedLike, Moved-MovedLike, MovedLike-back, Moved-AllTurnable, Moved-any_stop,
  Moved-AllRange,
}
use cnc_robot_control.Stepper.CountLaws.{AllRange, HasRange, ==-refl, Distinct, any_stop}
use cnc_robot_control.Stepper.MoveLaws.{Moved}
use cnc_robot_control.Stepper.PulseLaws.{idle}
use cnc_robot_control.Stepper.Pulser.{motor_pulser}
use cnc_robot_control.Stepper.SpeedLaws.{member, pointers}
use cnc_robot_control.Stepper.Values.{success, direction_negative}
use cnc_robot_control.Stepper.World.{Stepper, World, Env}

-- The counters of the listed motors are the same in two worlds, and the other motors are untouched.
pub record Returned (ps : List ℕ) (w w' : World) : Type 0 where
  pub counters : (q : ℕ) → member q ps ≡ true → (w'.motors q).steps ≡ (w.motors q).steps
  pub others : (q : ℕ) → member q ps ≡ false → w'.motors q ≡ w.motors q

Moved-Returned :
    (n p : ℕ) (ps : List ℕ) (w w2 w4 : World)
    → AllPositive (p ∷ ps) w
    → Moved n p ps w w2
    → Moved n p ps (turned_all direction_negative (p ∷ ps) w2) w4
    → Returned (p ∷ ps) w w4
Moved-Returned n p ps w w2 w4 a m m' = record {
  counters = λ q e.
      MovedLike-back n (w.motors q) (w2.motors q) (w4.motors q) (a q e)
        (Moved-MovedLike n p q ps w w2 m e)
        (subst (λ s. MovedLike n s (w4.motors q))
          (motors-turned_all direction_negative (p ∷ ps) w2 q
            ∙ ap (λ b. if b then facing direction_negative (w2.motors q) else w2.motors q) e)
          (Moved-MovedLike n p q ps (turned_all direction_negative (p ∷ ps) w2) w4 m' e));
  others = λ q e.
      m'.others q e
      ∙ motors-turned_all direction_negative (p ∷ ps) w2 q
      ∙ ap (λ b. if b then facing direction_negative (w2.motors q) else w2.motors q) e
      ∙ m.others q e;
}

-- What both moves of an axis need, beside the distances.
pub record Movable {D : Type 0} (env : Env) (a : Axis D) (p n : ℕ) (ps : List ℕ)
    (rest : List (Option ℕ)) : Type 0 where
  pub entries : a.motors ≡ pointers (p ∷ ps) ++ rest
  pub number : a.num_motors ≡ length (p ∷ ps)
  pub few : length (p ∷ ps) ≤ 8
  pub distinct : Distinct (p ∷ ps)
  pub obliging : Obliging env
  pub fits : suc n < 2 ^ 32

HasRange-less : (k : ℕ) (s : Stepper) → HasRange (k + k) s → HasRange k s
HasRange-less k s h = ground arith

module _ {D : Type 0} (d : Double D) (env : Env) (a : Axis D) (p n fuel : ℕ) (ps : List ℕ)
    (rest : List (Option ℕ)) (w : World) (there back : D) where
  same_steps :
      (w2 : World)
      → Moved (suc n) p ps w w2
      → steps_for d a (w2.motors p) (d.negate back) ≡ steps_for d a (w.motors p) (d.negate back)
  unfolding MovedLike
  same_steps w2 m =
      ap (λ (k : ℕ). d.to_uint (d.div (d.mul (d.negate back) (d.of_uint k)) a.mm_per_rotation))
        (Moved-MovedLike (suc n) p p ps w w2 m (rw (==-refl p) refl)).3

  abbrev turned_result : Bool → World → Option (ℤ × Option (Axis D) × World)
  turned_result b v = some (success, some (record a { reset_dir = b }), v)

  result_dir : {b c : Bool} → b ≡ c → (v : World) → turned_result b v ≡ turned_result c v
  result_dir e v = ap (λ b. turned_result b v) e

  starts_here :
      d.lt there d.zero_double ≡ false → a.reset_dir ≡ false → before_start d a there (p ∷ ps) w ≡ w
  starts_here l e = rw (l, e) refl

  starts_turned :
      d.lt back d.zero_double ≡ true
      → (v : World)
      → before_start d (record a { reset_dir = false }) back (p ∷ ps) v
        ≡ turned_all direction_negative (p ∷ ps) v
  starts_turned l v = rw l refl

  -- An axis whose motors face its positive direction, with no change of direction to be set back and
  -- nothing of its motors busy or about to stop, goes a positive distance and then a negative one of as
  -- many steps, with room in the counters for twice the steps, all that is asked for granted, and no
  -- other thread in between. Both calls succeed and both moves end, and every motor of the axis has then
  -- the step count that it had before, while the other motors are untouched.
  pub axis_move-returns :
      d.eq there d.zero_double ≡ false
      → d.lt there d.zero_double ≡ false
      → d.eq back d.zero_double ≡ false
      → d.lt back d.zero_double ≡ true
      → a.reset_dir ≡ false
      → steps_for d a (w.motors p) there ≡ some (suc n)
      → steps_for d a (w.motors p) (d.negate back) ≡ some (suc n)
      → Movable env a p n ps rest
      → n < fuel
      → AllTurnable (p ∷ ps) w
      → AllPositive (p ∷ ps) w
      → AllRange (suc n + suc n) (p ∷ ps) w.motors
      → any_stop (p ∷ ps) w.motors ≡ false
      → (w1 w2 w3 w4 : World) × (axis_move d env (some a) there w
          ≡ some (success, some (record a { reset_dir = false }), w1))
        × (motor_pulser fuel idle p w1 ≡ some (some w2))
        × (axis_move d env (some (record a { reset_dir = false })) back w2
            ≡ some (success, some (record a { reset_dir = true }), w3))
        × (motor_pulser fuel idle p w3 ≡ some (some w4))
        × Returned (p ∷ ps) w w4
  axis_move-returns tz tl bz bl e ts bs m f t po r st =
      let ones =
        λ (q : ℕ) (x : member q (p ∷ ps) ≡ true). HasRange-less (suc n) (w.motors q) (r q x) in
      let (w1, w2, starts, runs, went) =
        axis_move-Moved d env a p n fuel ps rest w there tz m.entries m.number (rw tl ts) m.obliging
          t f m.fits m.few m.distinct ones st in
      let there_moved : Moved (suc n) p ps w w2 =
        subst (λ v. Moved (suc n) p ps v w2) (starts_here tl e) went in
      let (w3, w4, starts', runs', came) =
        axis_move-Moved d env (record a { reset_dir = false }) p n fuel ps rest w2 back bz m.entries
          m.number (rw bl (same_steps w2 there_moved ∙ bs)) m.obliging
          (Moved-AllTurnable (suc n) p ps w w2 there_moved t) f m.fits m.few m.distinct
          (Moved-AllRange (suc n) p ps w w2 there_moved (suc n) r)
          (Moved-any_stop (suc n) p ps w w2 there_moved ∙ st) in
      (
        w1,
        w2,
        w3,
        w4,
        starts ∙ result_dir tl w1,
        runs,
        starts' ∙ result_dir bl w3,
        runs',
        Moved-Returned (suc n) p ps w w2 w4 po there_moved
            (subst (λ v. Moved (suc n) p ps v w4) (starts_turned bl w2) came),
      )
