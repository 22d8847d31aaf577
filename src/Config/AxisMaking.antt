-- ===== src/Config/AxisMaking.antt =====
-- control/src/config.c: the axes that `init_motors` makes of complete entries.
use mathlib.Core.Path.{subst}
use cnc_robot_control.Common.{
  ℕ, zero, suc, ◌+◌, ◌<◌, ◌≤◌, ◌≡◌, ◌∙◌, refl, ap, Bool, true, ◌&&◌, List, [], ◌∷◌, ◌++◌, Option,
  some, arith, ltb, length, get_elem?, take,
}
use cnc_robot_control.Axis.Double.{Double}
use cnc_robot_control.Axis.Laws.{axis_init-lem, is_acceptable, present}
use cnc_robot_control.Axis.Object.{axis_init, axis_of}
use cnc_robot_control.Config.Init.{Plant, collect, make_axis}
use cnc_robot_control.Config.Making.{Installed}
use cnc_robot_control.Config.Types.{AxisConfig, MotorConfig, validate_axis_node}
use cnc_robot_control.Stepper.Lifecycle.{Platform}
use cnc_robot_control.Stepper.SpeedLaws.{pointers}
use cnc_robot_control.Stepper.World.{Stepper}

-- Every number of a list is below a bound.
abbrev pub AllBelow : ℕ → List ℕ → Type 0
AllBelow n [] = Unit
AllBelow n (i ∷ is) = (i < n) × AllBelow n is

-- The motors that the entries of these numbers point to.
abbrev pub shifted : ℕ → List ℕ → List ℕ
shifted k [] = []
shifted k (i ∷ is) = (k + i) ∷ shifted k is

Installed-motor :
    (e : Platform) (n k i : ℕ) (xs ys : List MotorConfig) (motors : ℕ → Stepper)
    → Installed e n k xs ys motors
    → i < n
    → (y : MotorConfig) × (get_elem? ys i ≡ some y) × (y.motor ≡ some (k + i))
Installed-motor e zero k i xs ys motors t h = elim h [ ]
Installed-motor e (suc n) k i [] ys motors t h = absurd t
Installed-motor e (suc n) k i (x ∷ xs) [] motors t h = absurd t
Installed-motor e (suc n) k zero (x ∷ xs) (y ∷ ys) motors (q, _, t) h =
    (y, refl, ap (λ v. v.motor) q ∙ ap (λ j. some j) (omega arith))
Installed-motor e (suc n) k (suc i) (x ∷ xs) (y ∷ ys) motors (q, _, t) h =
    let (z, at, m) = Installed-motor e n (k + 1) i xs ys motors t (omega arith) in
    (z, at, m ∙ ap (λ j. some j) (omega arith))

collect-shifted :
    (e : Platform) (n k : ℕ) (is : List ℕ) (rest : List (Option ℕ)) (xs ys : List MotorConfig)
    (motors : ℕ → Stepper)
    → Installed e n k xs ys motors
    → AllBelow n is
    → collect (length is) (pointers is ++ rest) ys ≡ some (pointers (shifted k is))
unfolding collect
collect-shifted e n k [] rest xs ys motors t b = refl
collect-shifted e n k (i ∷ is) rest xs ys motors t (b, bs) =
    let (y, at, m) = Installed-motor e n k i xs ys motors t b in
    rw (at, collect-shifted e n k is rest xs ys motors t bs, m) refl

length-shifted : (k : ℕ) (is : List ℕ) → length (pointers (shifted k is)) ≡ length is
length-shifted k [] = refl
length-shifted k (i ∷ is) = ap suc (length-shifted k is)

present-pointers : (ps : List ℕ) → present (take (length ps) (pointers ps)) ≡ some ps
present-pointers [] = refl
present-pointers (p ∷ ps) = rw (present-pointers ps) refl

shifted-length : (k : ℕ) (is : List ℕ) → length (shifted k is) ≡ length is
shifted-length k [] = refl
shifted-length k (i ∷ is) = ap suc (shifted-length k is)

-- When the first `n` entries for motors have been installed with the numbers from `k` on, an axis of one
-- to eight of them, with a positive distance for a rotation and memory for the object, is made: it has
-- the motors of the entries that it names, in their order.
pub make_axis-made :
    {D : Type 0} (d : Double D) (malloc_ok : Plant D → Bool) (s : Plant D) (x : AxisConfig)
    (e : Platform) (n k : ℕ) (is : List ℕ) (rest : List (Option ℕ)) (xs ys : List MotorConfig)
    → Installed e n k xs ys s.motors
    → x.motors ≡ pointers is ++ rest
    → x.count ≡ length is
    → AllBelow n is
    → 0 < length is
    → length is ≤ 8
    → 0 < x.mm_rot
    → malloc_ok s ≡ true
    → make_axis d malloc_ok ys x s
      ≡ some (
        some (length s.axes),
        record s { axes = s.axes ++ axis_of d (shifted k is) x.mm_rot ∷ [] },
      )
unfolding make_axis validate_axis_node
make_axis-made d malloc_ok s x e n k is rest xs ys t m c b p l r ok =
    let motors = pointers (shifted k is) in
    let good : is_acceptable (malloc_ok s) x.mm_rot (length is) ≡ true = rw ok (ground arith) in
    let named : present (take (length is) motors) ≡ some (shifted k is) =
      subst (λ j. present (take j motors) ≡ some (shifted k is)) (shifted-length k is)
        (present-pointers (shifted k is)) in
    let init : axis_init d (malloc_ok s) (some motors) x.mm_rot (length is)
        ≡ some (some (axis_of d (shifted k is) x.mm_rot)) =
      axis_init-lem d (malloc_ok s) motors x.mm_rot (length is) (omega (arith, length-shifted k is))
      ∙ rw (good, named) refl in
    let valid : (ltb 0 (length is) && ltb 0 x.mm_rot) ≡ true = ground arith in
    rw (m, c, valid, collect-shifted e n k is rest xs ys s.motors t b, init) refl
