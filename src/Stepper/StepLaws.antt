-- ===== src/Stepper/StepLaws.antt =====
-- core/src/Stepper.c: what starting and ending a move does to the motors.
use cnc_robot_control.Common.{
  ℕ, zero, suc, ◌+◌, ◌≤◌, ◌<◌, ◌≡◌, refl, true, false, ◌||◌, List, [], ◌∷◌, ◌++◌, none, some, arith,
  ltb, ◌==◌, if◌then◌else◌, length, Option, append-nil,
}
use cnc_robot_control.Common.Int.{pos}
use cnc_robot_control.Stepper.Request.{
  filled, fill_loop, step_pins, assign_loop, create_of, create_filled, stepper_create_new_request,
  clear_loop, step_first, signal_first, stepper_step_multiple,
}
use cnc_robot_control.Stepper.SpeedLaws.{member, pointers}
use cnc_robot_control.Stepper.Values.{success, motor_list_size_max}
use cnc_robot_control.Stepper.World.{
  StepperReq, World, Env, request_bulk, signal_req, put, log, stepper_is_busy,
}

-- The allocator, the driver and the threads grant all that a call asks for.
abbrev pub Grants : Env → World → List ℕ → Type 0
Grants env w ps =
    let requested = log (request_bulk (step_pins w ps)) w in
    (env.malloc_block_ok w ≡ true)
    × (env.request_bulk_ok w (step_pins w ps) ≡ true)
    × (env.malloc_mutex_ok requested ≡ true)
    × (env.mutex_init_ok requested ≡ true)

pub fill_loop-pointers :
    (room : ℕ) (ps : List ℕ) (rest : List (Option ℕ))
    → length ps ≤ room
    → fill_loop room (length ps) (pointers ps ++ rest) ≡ filled ps
unfolding fill_loop
fill_loop-pointers room [] rest h = refl
fill_loop-pointers zero (p ∷ ps) rest h = elim h [ ]
fill_loop-pointers (suc room) (p ∷ ps) rest h =
    ground (arith, fill_loop-pointers room ps rest (omega arith))

fill_loop-list : (ps : List ℕ) → length ps ≤ 8 → fill_loop 8 (length ps) (pointers ps) ≡ filled ps
fill_loop-list ps h = rw append-nil at (fill_loop-pointers 8 ps [] h)

pub motors-assign_loop :
    (req : ℕ) (ps : List ℕ) (w : World) (q : ℕ)
    → (assign_loop req ps w).motors q ≡ (
        if member q ps
        then record (w.motors q) { current_req = some req; shared_mutex = some req }
        else w.motors q)
unfolding assign_loop
motors-assign_loop req [] w q = refl
motors-assign_loop req (p ∷ ps) w q = ground (
  arith,
  motors-assign_loop req ps
      (put p (record (w.motors p) { current_req = some req; shared_mutex = some req }) w) q,
)

pub rest-assign_loop :
    (req : ℕ) (ps : List ℕ) (w : World)
    → ((assign_loop req ps w).requests ≡ w.requests) × ((assign_loop req ps w).calls ≡ w.calls)
unfolding assign_loop
rest-assign_loop req [] w = (refl, refl)
rest-assign_loop req (p ∷ ps) w =
    rest-assign_loop req ps
      (put p (record (w.motors p) { current_req = some req; shared_mutex = some req }) w)

pub motors-clear_loop :
    (ps : List ℕ) (w : World) (q : ℕ)
    → (clear_loop ps w).motors q ≡ (
        if member q ps
        then record (w.motors q) { current_req = none; shared_mutex = none }
        else w.motors q)
unfolding clear_loop
motors-clear_loop [] w q = refl
motors-clear_loop (p ∷ ps) w q = ground (
  arith,
  motors-clear_loop ps (put p (record (w.motors p) { current_req = none; shared_mutex = none }) w)
      q,
)

pub rest-clear_loop :
    (ps : List ℕ) (w : World)
    → ((clear_loop ps w).requests ≡ w.requests) × ((clear_loop ps w).calls ≡ w.calls)
unfolding clear_loop
rest-clear_loop [] w = (refl, refl)
rest-clear_loop (p ∷ ps) w =
    rest-clear_loop ps (put p (record (w.motors p) { current_req = none; shared_mutex = none }) w)

-- The request that a call for the motors `ps` makes.
abbrev pub request_for : World → List ℕ → ℕ → StepperReq
request_for w ps steps = record {
  motor_list = ps;
  motor_waiting = none;
  pin_bulk = step_pins w ps;
  count = length ps;
  req_steps = steps;
}

-- The world before the motors point to the new request.
abbrev pub with_request : World → List ℕ → ℕ → World
with_request w ps steps = record w {
  calls = w.calls ++ request_bulk (step_pins w ps) ∷ [];
  requests = λ q. if w.next_req == q then some (request_for w ps steps) else w.requests q;
  next_req = w.next_req + 1;
}

-- The world in which a move has begun.
abbrev pub begun : World → ℕ → List ℕ → ℕ → World
begun w p ps steps =
    let w' = assign_loop w.next_req (p ∷ ps) (with_request w (p ∷ ps) steps) in
    log (signal_req p) (put p (record (w'.motors p) { req_available = true }) w')

create_of-Grants :
    (env : Env) (ps : List ℕ) (steps : ℕ) (w : World)
    → Grants env w ps
    → create_of env ps steps w
      ≡ (some w.next_req, assign_loop w.next_req ps (with_request w ps steps))
unfolding create_of
create_of-Grants env ps steps w (b, r, m, i) = rw (r, m, i)

-- A call for one to eight motors, with a positive number of steps, a first motor that is not busy and
-- all resources granted, succeeds: a new request takes all the listed motors, and the thread of the
-- first one is signalled.
pub stepper_step_multiple-success :
    (env : Env) (p : ℕ) (ps : List ℕ) (steps : ℕ) (w : World)
    → 0 < steps
    → length (p ∷ ps) ≤ 8
    → stepper_is_busy w p ≡ false
    → Grants env w (p ∷ ps)
    → stepper_step_multiple env (some (pointers (p ∷ ps))) steps (pos (length (p ∷ ps))) w
      ≡ some (success, begun w p ps steps)
unfolding stepper_step_multiple step_first stepper_create_new_request create_filled signal_first
stepper_step_multiple-success env p ps steps w s l b g =
    let ok : (steps == 0) ≡ false = ground arith in
    let small : (length (p ∷ ps) == 0 || ltb motor_list_size_max (length (p ∷ ps))) ≡ false =
      ground arith in
    rw (ok, small, b, g.0, fill_loop-list (p ∷ ps) l, create_of-Grants env (p ∷ ps) steps w g) refl

-- The entries of the array behind the count are not looked at.
pub stepper_step_multiple-rest :
    (env : Env) (p : ℕ) (ps : List ℕ) (rest : List (Option ℕ)) (steps : ℕ) (w : World)
    → length (p ∷ ps) ≤ 8
    → stepper_step_multiple env (some (pointers (p ∷ ps) ++ rest)) steps (pos (length (p ∷ ps))) w
      ≡ stepper_step_multiple env (some (pointers (p ∷ ps))) steps (pos (length (p ∷ ps))) w
unfolding stepper_step_multiple step_first stepper_create_new_request
stepper_step_multiple-rest env p ps rest steps w l =
    rw (fill_loop-pointers 8 (p ∷ ps) rest l, fill_loop-list (p ∷ ps) l) refl
