-- ===== src/Stepper/Request.antt =====
-- core/src/Stepper.c: creating and destroying move requests, and the functions that start a move.
use cnc_robot_control.Common.{
  ℕ, zero, suc, ◌+◌, ◌-◌, ◌^◌, Bool, true, false, not, ◌||◌, List, [], ◌∷◌, Option, none, some, ltb,
  ◌==◌, if◌then◌else◌, length,
}
use cnc_robot_control.Common.Int.{ℤ, pos, negsuc, ◌>>=◌}
use cnc_robot_control.Stepper.Values.{motor_list_size_max, success, failure}
use cnc_robot_control.Stepper.World.{
  StepperReq, World, Env, request_bulk, release_bulk, signal_req, put, log, stepper_is_busy,
}

-- The first loop over `motors[]`.
pub data Filled : Type 0 where
  filled : List ℕ → Filled  -- the motors copied to the request
  null_motor : Filled  -- a NULL among them
  overrun : Filled  -- a read behind `motors[]`, or a write behind `motor_list[]`

abbrev pub cons_filled : ℕ → Filled → Filled
cons_filled p (filled ps) = filled (p ∷ ps)
cons_filled p r = r

-- `room` entries of `motor_list[]` and `n` rounds are left.
unfoldable pub fill_loop : ℕ → ℕ → List (Option ℕ) → Filled
fill_loop room zero motors = filled []
fill_loop room (suc n) [] = overrun
fill_loop room (suc n) (none ∷ motors) = null_motor
fill_loop zero (suc n) (some p ∷ motors) = overrun
fill_loop (suc room) (suc n) (some p ∷ motors) = cons_filled p (fill_loop room n motors)

unfoldable pub step_pins : World → List ℕ → List ℕ
step_pins w [] = []
step_pins w (p ∷ ps) = (w.motors p).step_pin ∷ step_pins w ps

-- The last loop: every motor of the list points to the request and its mutex.
unfoldable pub assign_loop : ℕ → List ℕ → World → World
assign_loop req [] w = w
assign_loop req (p ∷ ps) w =
    assign_loop req ps
      (put p (record (w.motors p) { current_req = some req; shared_mutex = some req }) w)

-- Behind the first loop. The label `failure` releases the bulk and frees the block; nothing points to
-- the request yet.
unfoldable pub create_of : Env → List ℕ → ℕ → World → Option ℕ × World
unfolding step_pins assign_loop
create_of env ps req_steps w =
    let bulk = step_pins w ps in
    let requested = log (request_bulk bulk) w in
    let released = log (release_bulk bulk) requested in
    let req = w.next_req in
    let request : StepperReq = record {
      motor_list = ps;
      motor_waiting = none;
      pin_bulk = bulk;
      count = length ps;
      req_steps = req_steps;
    } in
    let created = record requested {
      requests = λ q. if req == q then some request else w.requests q;
      next_req = req + 1;
    } in
    if not (env.request_bulk_ok w bulk)
    then (none, released)
    else if not (env.malloc_mutex_ok requested)
    then (none, released)
    else if not (env.mutex_init_ok requested)
    then (none, released)
    else (some req, assign_loop req ps created)

-- What follows the first loop.
unfoldable pub create_filled : Env → ℕ → World → Filled → Option (Option ℕ × World)
unfolding create_of
create_filled env req_steps w (filled ps) = some (create_of env ps req_steps w)
create_filled env req_steps w null_motor = some (none, log (release_bulk []) w)
create_filled env req_steps w overrun = none

unfoldable pub stepper_create_new_request :
    Env → List (Option ℕ) → ℕ → ℕ → World → Option (Option ℕ × World)
unfolding create_filled
stepper_create_new_request env motors count req_steps w =
    if not (env.malloc_block_ok w)
    then some (none, w)
    else create_filled env req_steps w (fill_loop motor_list_size_max count motors)

-- The loop of `stepper_destroy_request`.
unfoldable pub clear_loop : List ℕ → World → World
clear_loop [] w = w
clear_loop (p ∷ ps) w =
    clear_loop ps (put p (record (w.motors p) { current_req = none; shared_mutex = none }) w)

abbrev pub forget : ℕ → World → World
forget req w = record w { requests = λ q. if req == q then none else w.requests q }

unfoldable pub stepper_destroy_request : ℕ → World → Option World
stepper_destroy_request req w = elim (w.requests req) [
  | none ↦ none
  | some r ↦ some (forget req (clear_loop r.motor_list (log (release_bulk r.pin_bulk) w)))
]

-- An `int` given to an `unsigned int` parameter.
abbrev pub to_uint : ℤ → ℕ
to_uint (pos n) = n
to_uint (negsuc n) = 2 ^ 32 - 1 - n

-- `count == 0 || count > MOTOR_LIST_SIZE_MAX`, on an `int`: a negative count passes.
abbrev pub count_refused : ℤ → Bool
count_refused (pos n) = n == 0 || ltb motor_list_size_max n
count_refused (negsuc n) = false

unfoldable pub signal_first : ℕ → ℕ → Option ℕ × World → ℤ × World
signal_first p steps (none, w) = (failure, w)
signal_first p steps (some req, w) =
    (success, log (signal_req p) (put p (record (w.motors p) { req_available = true }) w))

-- The first motor alone is asked whether it is busy.
unfoldable pub step_first : Env → List (Option ℕ) → ℕ → ℤ → World → Option (ℤ × World)
unfolding signal_first
step_first env [] steps count w = none
step_first env (none ∷ motors) steps count w = none
step_first env (some p ∷ motors) steps count w =
    if stepper_is_busy w p then some (failure, w) else (do
      r ← stepper_create_new_request env (some p ∷ motors) (to_uint count) steps w
      some (signal_first p steps r))

unfoldable pub stepper_step_multiple :
    Env → Option (List (Option ℕ)) → ℕ → ℤ → World → Option (ℤ × World)
unfolding step_first
stepper_step_multiple env none steps count w = some (failure, w)
stepper_step_multiple env (some motors) steps count w =
    if steps == 0
    then some (failure, w)
    else if count_refused count
    then some (failure, w)
    else step_first env motors steps count w

unfoldable pub stepper_step : Env → Option ℕ → ℕ → World → Option (ℤ × World)
unfolding stepper_step_multiple
stepper_step env motor steps w = stepper_step_multiple env (some (motor ∷ [])) steps (pos 1) w
