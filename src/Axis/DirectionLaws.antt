-- ===== src/Axis/DirectionLaws.antt =====
-- core/src/Axis.c: what `axis_set_direction` does to the motors of an axis.
use native.Mathlib.Nat.{zero-add, suc-add, add-zero}
use cnc_robot_control.Common.{
  ℕ, suc, ◌+◌, ◌≡◌, ◌∙◌, refl, ap, true, List, [], ◌∷◌, ◌++◌, Option, none, some, arith,
  if◌then◌else◌, length,
}
use cnc_robot_control.Common.Int.{ℤ}
use cnc_robot_control.Axis.Motion.{next_motor, direction_loop, axis_set_direction}
use cnc_robot_control.Axis.Object.{Axis}
use cnc_robot_control.Stepper.ControlLaws.{
  turned, set_abs-turned, valid_opposite, set_direction-busy,
}
use cnc_robot_control.Stepper.Direction.{stepper_set_direction_rel, opposite}
use cnc_robot_control.Stepper.SpeedLaws.{member, pointers}
use cnc_robot_control.Stepper.Values.{
  success, failure, is_valid_direction_rel, is_valid_direction_abs, eq_ℤ, direction_positive,
}
use cnc_robot_control.Stepper.World.{Stepper, World, Env, stepper_is_busy}

-- The absolute direction that a relative one stands for.
abbrev pub towards : ℤ → Stepper → ℕ
towards direction s =
    if eq_ℤ direction direction_positive then s.pos_direction else opposite s.pos_direction

abbrev pub facing : ℤ → Stepper → Stepper
facing direction s = record s { curr_direction = towards direction s }

-- A motor that can be turned: it is free, and its positive direction is one of the two.
abbrev pub IsTurnable : Stepper → Type 0
IsTurnable s = (s.shared_mutex ≡ none) × (is_valid_direction_abs s.pos_direction ≡ true)

abbrev pub AllTurnable : List ℕ → World → Type 0
AllTurnable [] w = Unit
AllTurnable (p ∷ ps) w = IsTurnable (w.motors p) × AllTurnable ps w

-- The driver sets every line that it is asked to set.
abbrev pub SetsLines : Env → Type 0
SetsLines env = (w : World) (line value : ℕ) → env.set_value_ok w line value ≡ true

-- The world in which the listed motors have been turned, one after the other.
abbrev pub turned_all : ℤ → List ℕ → World → World
turned_all direction [] w = w
turned_all direction (p ∷ ps) w =
    turned_all direction ps (turned p (towards direction (w.motors p)) w)

valid_towards :
    (direction : ℤ) (s : Stepper)
    → is_valid_direction_abs s.pos_direction ≡ true
    → is_valid_direction_abs (towards direction s) ≡ true
valid_towards direction s v = ground (arith, (valid_opposite s.pos_direction v).0)

set_rel-turned :
    (env : Env) (p : ℕ) (direction : ℤ) (w : World)
    → SetsLines env
    → is_valid_direction_rel direction ≡ true
    → IsTurnable (w.motors p)
    → stepper_set_direction_rel env (some p) direction w
      ≡ (success, turned p (towards direction (w.motors p)) w)
unfolding stepper_set_direction_rel
set_rel-turned env p direction w ok v (free, valid) = rw v (
    set_abs-turned env p (towards direction (w.motors p)) w
      (valid_towards direction (w.motors p) valid) (rw free refl) (ok w))

AllTurnable-turned :
    (ps : List ℕ) (p d : ℕ) (w : World) → AllTurnable ps w → AllTurnable ps (turned p d w)
AllTurnable-turned [] p d w a = tt
AllTurnable-turned (q ∷ ps) p d w (a, rest) = (ground arith, AllTurnable-turned ps p d w rest)

pub motors-turned_all :
    (direction : ℤ) (ps : List ℕ) (w : World) (q : ℕ)
    → (turned_all direction ps w).motors q
      ≡ (if member q ps then facing direction (w.motors q) else w.motors q)
motors-turned_all direction [] w q = refl
motors-turned_all direction (p ∷ ps) w q =
    ground (arith, motors-turned_all direction ps (turned p (towards direction (w.motors p)) w) q)

pub rest-turned_all :
    (direction : ℤ) (ps : List ℕ) (w : World)
    → ((turned_all direction ps w).requests ≡ w.requests)
      × ((turned_all direction ps w).next_req ≡ w.next_req)
rest-turned_all direction [] w = (refl, refl)
rest-turned_all direction (p ∷ ps) w =
    rest-turned_all direction ps (turned p (towards direction (w.motors p)) w)

direction_loop-append :
    (env : Env) (ps : List ℕ) (n : ℕ) (rest : List (Option ℕ)) (direction : ℤ) (w : World)
    → SetsLines env
    → is_valid_direction_rel direction ≡ true
    → AllTurnable ps w
    → direction_loop env (length ps + n) (pointers ps ++ rest) direction w
      ≡ direction_loop env n rest direction (turned_all direction ps w)
unfolding direction_loop
direction_loop-append env [] n rest direction w ok v a = rw zero-add
direction_loop-append env (p ∷ ps) n rest direction w ok v (a, others) =
    let w' = turned p (towards direction (w.motors p)) w in
    let more =
      λ (x : World). direction_loop env (length ps + n) (pointers ps ++ rest) direction x in
    rw suc-add (
      ap (λ r. next_motor r more) (set_rel-turned env p direction w ok v a)
      ∙ direction_loop-append env ps n rest direction w' ok v
          (AllTurnable-turned ps p (towards direction (w.motors p)) w others))

direction_loop-zero :
    (env : Env) (rest : List (Option ℕ)) (direction : ℤ) (w : World)
    → direction_loop env 0 rest direction w ≡ some (success, w)
unfolding direction_loop
direction_loop-zero env rest direction w = refl

direction_loop-busy :
    (env : Env) (p n : ℕ) (rest : List (Option ℕ)) (direction : ℤ) (w : World)
    → stepper_is_busy w p ≡ true
    → direction_loop env (suc n) (some p ∷ rest) direction w ≡ some (failure, w)
unfolding direction_loop
direction_loop-busy env p n rest direction w b =
    ap (λ r. next_motor r (λ x. direction_loop env n rest direction x))
      (set_direction-busy env p 0 direction w b).1

pub busy-turned_all :
    (direction : ℤ) (ps : List ℕ) (w : World) (q : ℕ)
    → stepper_is_busy (turned_all direction ps w) q ≡ stepper_is_busy w q
busy-turned_all direction ps w q = ground (arith, motors-turned_all direction ps w q)

module _ {D : Type 0} (env : Env) (a : Axis D) (direction : ℤ) (w : World) where
  -- Turning an axis whose motors are all free, in a valid direction that the driver sets: the call
  -- succeeds, every motor of the axis faces that direction, and no other motor, no request and nothing
  -- else of a motor has changed.
  pub axis_set_direction-success :
      (ps : List ℕ) (rest : List (Option ℕ))
      → a.motors ≡ pointers ps ++ rest
      → a.num_motors ≡ length ps
      → SetsLines env
      → is_valid_direction_rel direction ≡ true
      → AllTurnable ps w
      → (axis_set_direction env (some a) direction w ≡ some (success, turned_all direction ps w))
        × ((q : ℕ)
            → (turned_all direction ps w).motors q
              ≡ (if member q ps then facing direction (w.motors q) else w.motors q))
        × ((turned_all direction ps w).requests ≡ w.requests)
  unfolding axis_set_direction
  axis_set_direction-success ps rest m n ok v free =
      let loop = direction_loop-append env ps 0 rest direction w ok v free in
      let done : direction_loop env 0 rest direction (turned_all direction ps w)
          ≡ some (success, turned_all direction ps w) =
        direction_loop-zero env rest direction (turned_all direction ps w) in
      (
        rw (m, n) (rw add-zero at loop ∙ done),
        motors-turned_all direction ps w,
        (rest-turned_all direction ps w).0,
      )

  -- A busy motor of the axis stops the call with an error, and the motors before it have been turned.
  pub axis_set_direction-busy :
      (ps : List ℕ) (p n : ℕ) (rest : List (Option ℕ))
      → a.motors ≡ pointers ps ++ (some p ∷ rest)
      → a.num_motors ≡ length ps + suc n
      → SetsLines env
      → is_valid_direction_rel direction ≡ true
      → AllTurnable ps w
      → stepper_is_busy w p ≡ true
      → axis_set_direction env (some a) direction w ≡ some (failure, turned_all direction ps w)
  unfolding axis_set_direction
  axis_set_direction-busy ps p n rest m k ok v free b =
      rw (m, k)
        (direction_loop-append env ps (suc n) (some p ∷ rest) direction w ok v free
          ∙ direction_loop-busy env p n rest direction (turned_all direction ps w)
              (busy-turned_all direction ps w p ∙ b))
