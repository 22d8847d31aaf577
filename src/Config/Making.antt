-- ===== src/Config/Making.antt =====
-- control/src/config.c: the motors that `init_motors` makes of complete entries.
use mathlib.Core.Path.{subst}
use cnc_robot_control.Stepper.CountLaws.{==-refl}
use cnc_robot_control.Common.{
  ℕ, zero, suc, ◌+◌, ◌<◌, ◌≡◌, ◌∙◌, sym, refl, true, List, [], ◌∷◌, Option, some, arith, ◌==◌,
  if◌then◌else◌,
}
use cnc_robot_control.Common.Int.{ℤ}
use cnc_robot_control.Config.Creation.{Willing, IsMotorOf, stepper_init-validated}
use cnc_robot_control.Config.Entries.{IsFormed}
use cnc_robot_control.Config.Init.{Plant, make_motor, after_motor, motor_loop}
use cnc_robot_control.Config.InitLaws.{FirstOf}
use cnc_robot_control.Config.Types.{MotorConfig, validate_motor_node}
use cnc_robot_control.Stepper.Lifecycle.{Board, Platform}
use cnc_robot_control.Stepper.Values.{success}
use cnc_robot_control.Stepper.World.{Stepper}

-- An entry that the state machine left and that is complete.
abbrev pub Complete : MotorConfig → Type 0
Complete x = IsFormed x × (validate_motor_node x ≡ true)

-- The first entries point to new motors, numbered from `k` on, each made of its entry; the other entries
-- are as they were.
abbrev pub Installed :
    Platform → ℕ → ℕ → List MotorConfig → List MotorConfig → (ℕ → Stepper) → Type 0
Installed e zero k xs ys motors = ys ≡ xs
Installed e (suc n) k (x ∷ xs) (y ∷ ys) motors =
    (y ≡ record x { motor = some k })
    × IsMotorOf e x (motors k)
    × Installed e n (k + 1) xs ys motors
Installed e (suc n) k xs ys motors = ⊥

abbrev with_motor : {D : Type 0} → Plant D → Stepper → Board → Plant D
with_motor s motor b = record s {
  board = b;
  motors = λ q. if s.next_motor == q then motor else s.motors q;
  next_motor = s.next_motor + 1;
}

make_motor-makes :
    {D : Type 0} (e : Platform) (x : MotorConfig) (s : Plant D)
    → Willing e
    → Complete x
    → (motor : Stepper) × (b : Board) × (make_motor e x s
        ≡ some (some s.next_motor, with_motor s motor b))
      × IsMotorOf e x motor
unfolding make_motor
make_motor-makes e x s w (f, v) =
    let (motor, b, made, is) = stepper_init-validated e x s.board w f v in
    (motor, b, rw (v, made) refl, is)

after_motor-some :
    {D : Type 0} (x : MotorConfig) (xs ys : List MotorConfig) (p : ℕ) (s s' : Plant D)
    (made : Option (Option ℕ × Plant D)) (more : Plant D → Option (ℤ × List MotorConfig × Plant D))
    → made ≡ some (some p, s)
    → more s ≡ some (success, ys, s')
    → after_motor x xs made more ≡ some (success, record x { motor = some p } ∷ ys, s')
after_motor-some x xs ys p s s' made more e f = rw (e, f) refl

placed_here :
    {D : Type 0} (s : Plant D) (motor : Stepper) (b : Board)
    → (with_motor s motor b).motors s.next_motor ≡ motor
placed_here s motor b = rw (==-refl s.next_motor) refl

placed_before :
    {D : Type 0} (s : Plant D) (motor : Stepper) (b : Board) (q : ℕ)
    → q < s.next_motor
    → (with_motor s motor b).motors q ≡ s.motors q
placed_before s motor b q h = ground arith

-- Where the driver, the allocator and the threads grant what they are asked for, and the first `n` entries
-- are as the state machine leaves them and complete, the first loop of `init_motors` over these entries
-- succeeds: each points to a motor of its own, with the numbers from the first free one on, in their
-- order; the motor has the lines that the driver gives for the entry's two pins, and the entry's name,
-- directions and steps for a rotation, and is free. The motors made before are as they were.
pub motor_loop-Installed :
    {D : Type 0} (e : Platform) (n : ℕ) (xs : List MotorConfig) (s : Plant D)
    → Willing e
    → FirstOf Complete n xs
    → (ys : List MotorConfig) × (s' : Plant D) × (motor_loop e n xs s ≡ some (success, ys, s'))
      × Installed e n s.next_motor xs ys s'.motors
      × ((q : ℕ) → q < s.next_motor → s'.motors q ≡ s.motors q)
unfolding motor_loop
motor_loop-Installed e zero xs s w c = (xs, s, refl, refl, λ q h. refl)
motor_loop-Installed e (suc n) [] s w c = absurd c
motor_loop-Installed e (suc n) (x ∷ xs) s w (c, cs) =
    let (motor, b, made, is) = make_motor-makes e x s w c in
    let s1 = with_motor s motor b in
    let (ys, s', rest, there, before) = motor_loop-Installed e n xs s1 w cs in
    let here : s'.motors s.next_motor ≡ motor =
      before s.next_motor (omega arith) ∙ placed_here s motor b in
    (
      record x { motor = some s.next_motor } ∷ ys,
      s',
      after_motor-some x xs ys s.next_motor s1 s' (make_motor e x s) (λ r. motor_loop e n xs r) made
          rest,
      (refl, subst (λ m. IsMotorOf e x m) (sym here) is, there),
      λ q h. before q (omega arith) ∙ placed_before s motor b q h,
    )
