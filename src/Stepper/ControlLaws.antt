-- ===== src/Stepper/ControlLaws.antt =====
-- core/src/Stepper.c: stopping a move, turning directions, and calls that fail.
use cnc_robot_control.Common.{
  ℕ, ◌≡◌, ◌≢◌, refl, true, false, List, [], ◌∷◌, Option, none, some, arith, Bool-cases, inl, inr,
  ◌⊎◌,
}
use cnc_robot_control.Common.Int.{ℤ, pos, negsuc, ◌>>=◌}
use cnc_robot_control.Stepper.Direction.{
  stepper_set_direction_abs, stepper_set_direction_rel, stepper_get_direction_rel, opposite,
}
use cnc_robot_control.Stepper.Request.{
  Filled, filled, null_motor, overrun, fill_loop, create_of, create_filled,
  stepper_create_new_request, step_first, signal_first, stepper_step_multiple, to_uint,
}
use cnc_robot_control.Stepper.Values.{
  success, failure, is_valid_direction_rel, is_valid_direction_abs,
}
use cnc_robot_control.Stepper.World.{World, Env, set_value, put, log, stepper_is_busy}

-- What a call that fails leaves as it was.
abbrev pub KeptIf : World → Option (ℤ × World) → Type 0
KeptIf w none = Unit
KeptIf w (some (pos n, w')) = Unit
KeptIf w (some (negsuc n, w')) = (w'.motors ≡ w.motors) × (w'.requests ≡ w.requests)

abbrev KeptUnless : World → Option ℕ × World → Type 0
KeptUnless w (none, w') = (w'.motors ≡ w.motors) × (w'.requests ≡ w.requests)
KeptUnless w (some req, w') = Unit

create_of-Kept :
    (env : Env) (ps : List ℕ) (steps : ℕ) (w : World) → KeptUnless w (create_of env ps steps w)
unfolding create_of
create_of-Kept env ps steps w = ground arith

signal_first-Kept :
    (p steps : ℕ) (w : World) (r : Option ℕ × World)
    → KeptUnless w r
    → KeptIf w (some (signal_first p steps r))
unfolding signal_first
signal_first-Kept p steps w (none, w') k = k
signal_first-Kept p steps w (some req, w') k = tt

abbrev KeptCreated : World → Option (Option ℕ × World) → Type 0
KeptCreated w none = Unit
KeptCreated w (some r) = KeptUnless w r

create_filled-Kept :
    (env : Env) (steps : ℕ) (w : World) (f : Filled) → KeptCreated w (create_filled env steps w f)
unfolding create_filled
create_filled-Kept env steps w (filled ps) = create_of-Kept env ps steps w
create_filled-Kept env steps w null_motor = (refl, refl)
create_filled-Kept env steps w overrun = tt

create-Kept :
    (env : Env) (motors : List (Option ℕ)) (count steps : ℕ) (w : World)
    → KeptCreated w (stepper_create_new_request env motors count steps w)
unfolding stepper_create_new_request
create-Kept env motors count steps w = elim (Bool-cases (env.malloc_block_ok w)) [
  | inl granted ↦ rw granted (create_filled-Kept env steps w (fill_loop 8 count motors))
  | inr refused ↦ rw refused (refl, refl)
]

signal_created-Kept :
    (p steps : ℕ) (w : World) (r : Option (Option ℕ × World))
    → KeptCreated w r
    → KeptIf w (r >>= (λ c. some (signal_first p steps c)))
signal_created-Kept p steps w none k = tt
signal_created-Kept p steps w (some c) k = signal_first-Kept p steps w c k

step_first-Kept :
    (env : Env) (motors : List (Option ℕ)) (steps : ℕ) (count : ℤ) (w : World)
    → KeptIf w (step_first env motors steps count w)
unfolding step_first
step_first-Kept env [] steps count w = tt
step_first-Kept env (none ∷ motors) steps count w = tt
step_first-Kept env (some p ∷ motors) steps count w = elim (Bool-cases (stepper_is_busy w p)) [
  | inl busy ↦ rw busy (refl, refl)
  | inr free ↦ rw free (
      signal_created-Kept p steps w
        (stepper_create_new_request env (some p ∷ motors) (to_uint count) steps w)
        (create-Kept env (some p ∷ motors) (to_uint count) steps w))
]

-- Whatever the driver and the allocator answer, a call that fails has changed no motor and no request,
-- for all arguments.
pub stepper_step_multiple-failure :
    (env : Env) (motors : Option (List (Option ℕ))) (steps : ℕ) (count : ℤ) (w : World)
    → KeptIf w (stepper_step_multiple env motors steps count w)
unfolding stepper_step_multiple
stepper_step_multiple-failure env none steps count w = (refl, refl)
stepper_step_multiple-failure env (some motors) steps count w =
    ground (arith, step_first-Kept env motors steps count w)

-- The world after a motor has been turned.
abbrev pub turned : ℕ → ℕ → World → World
turned p d w =
    put p (record (w.motors p) { curr_direction = d }) (log (set_value (w.motors p).dir_pin d) w)

pub set_abs-turned :
    (env : Env) (p d : ℕ) (w : World)
    → is_valid_direction_abs d ≡ true
    → stepper_is_busy w p ≡ false
    → ((line value : ℕ) → env.set_value_ok w line value ≡ true)
    → stepper_set_direction_abs env (some p) d w ≡ (success, turned p d w)
unfolding stepper_set_direction_abs
set_abs-turned env p d w v b ok = rw (v, b, ok (w.motors p).dir_pin d) refl

pub valid_rel : (d : ℤ) → is_valid_direction_rel d ≡ true → (d ≡ pos 1) ⊎ (d ≡ negsuc 0)
unfolding is_valid_direction_rel
valid_rel d v = ground arith

pub valid_opposite :
    (d : ℕ)
    → is_valid_direction_abs d ≡ true
    → (is_valid_direction_abs (opposite d) ≡ true) × (opposite d ≢ d)
unfolding is_valid_direction_abs
valid_opposite d v = ground arith

pub others-turned : (p d q : ℕ) (w : World) → p ≢ q → (turned p d w).motors q ≡ w.motors q
others-turned p d q w n = ground arith

-- A relative direction that is set on a free motor with a valid positive direction is the one that is
-- read afterwards, when the driver accepts it, and only that motor has changed.
pub stepper_set_direction_rel-get :
    (env : Env) (p : ℕ) (direction : ℤ) (w : World)
    → is_valid_direction_rel direction ≡ true
    → is_valid_direction_abs (w.motors p).pos_direction ≡ true
    → stepper_is_busy w p ≡ false
    → ((line value : ℕ) → env.set_value_ok w line value ≡ true)
    → (w' : World) × (stepper_set_direction_rel env (some p) direction w ≡ (success, w'))
      × (stepper_get_direction_rel (some p) w' ≡ direction)
      × ((q : ℕ) → p ≢ q → w'.motors q ≡ w.motors q)
unfolding stepper_set_direction_rel stepper_get_direction_rel
stepper_set_direction_rel-get env p direction w v o b ok =
    let d = (w.motors p).pos_direction in
    let (o', n) = valid_opposite d o in
    elim (valid_rel direction v) [
      | inl e ↦ (
        turned p d w,
        rw (v, e) (set_abs-turned env p d w o b ok),
        ground (arith, e),
        λ q. others-turned p d q w,
      )
      | inr e ↦ (
        turned p (opposite d) w,
        rw (v, e) (set_abs-turned env p (opposite d) w o' b ok),
        ground (arith, e, n),
        λ q. others-turned p (opposite d) q w,
      )
    ]

-- A busy motor is not turned: both direction functions fail and change nothing.
pub set_direction-busy :
    (env : Env) (p d : ℕ) (direction : ℤ) (w : World)
    → stepper_is_busy w p ≡ true
    → (stepper_set_direction_abs env (some p) d w ≡ (failure, w))
      × (stepper_set_direction_rel env (some p) direction w ≡ (failure, w))
unfolding stepper_set_direction_rel stepper_set_direction_abs
set_direction-busy env p d direction w b = (ground arith, ground arith)
