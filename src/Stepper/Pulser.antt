-- ===== src/Stepper/Pulser.antt =====
-- core/src/Stepper.c: `motor_pulser`, the handler thread of a motor.
use cnc_robot_control.Common.{
  ℕ, zero, suc, ◌+◌, ◌-◌, ◌%◌, ◌^◌, Bool, true, false, not, ◌&&◌, ◌||◌, List, [], ◌∷◌, Option, none,
  some, ltb, leb, ◌==◌, if◌then◌else◌,
}
use cnc_robot_control.Common.Int.{ℤ, pos, ◌+ℤ◌, ◌-ℤ◌, pos_part, neg_part, ◌>>=◌}
use cnc_robot_control.Stepper.Request.{stepper_destroy_request}
use cnc_robot_control.Stepper.World.{
  Stepper, StepperReq, World, write_bulk, nanosleep, signal_wait, put, log,
}
use cnc_robot_control.Time.Calc.{Timespec, microsec_to_timespec}

-- An `int` result: overflow is undefined.
abbrev pub int : ℤ → Option ℤ
int a = if leb (neg_part a) (2 ^ 31) && ltb (pos_part a) (2 ^ 31) then some a else none

-- `node->steps++` in the positive direction, `node->steps--` in the other.
unfoldable pub next_steps : Stepper → Option ℤ
unfolding ◌+ℤ◌ ◌-ℤ◌
next_steps node =
    if node.curr_direction == node.pos_direction
    then int (node.steps +ℤ pos 1)
    else int (node.steps -ℤ pos 1)

-- The loop over the motors of the request, with the accumulated `stop`.
unfoldable pub count_loop : List ℕ → Bool → World → Option (Bool × World)
count_loop [] stop w = some (stop, w)
count_loop (p ∷ ps) stop w = do
  n ← next_steps (w.motors p)
  count_loop ps (stop || (w.motors p).stop) (put p (record (w.motors p) { steps = n }) w)

-- The four calls that make one pulse.
abbrev pub pulse : List ℕ → Timespec → World → World
pulse bulk t w =
    log (nanosleep t)
      (log (write_bulk bulk false) (log (nanosleep t) (log (write_bulk bulk true) w)))

-- `--motor->current_req->req_steps`, an `unsigned int`.
abbrev pub decrement : ℕ → ℕ
decrement n = (n + 2 ^ 32 - 1) % 2 ^ 32

abbrev pub set_request : ℕ → StepperReq → World → World
set_request req r w = record w { requests = λ q. if req == q then some r else w.requests q }

-- The request that a motor points to.
abbrev pub request_of : World → ℕ → Option (ℕ × StepperReq)
request_of w p = do req ← (w.motors p).current_req; r ← w.requests req; some (req, r)

-- One round of the `do` loop: whether it goes on, and the world.
unfoldable pub pulse_round : ℕ → Timespec → Bool → World → Option (Bool × Bool × World)
pulse_round p t stop w = do
  (req, r) ← request_of w p
  (stop', w') ← count_loop r.motor_list stop (pulse r.pin_bulk t w)
  let left = decrement r.req_steps
  some (not (left == 0) && not stop', stop', set_request req (record r { req_steps = left }) w')

-- What other threads do to the world while a round is made, by the rounds left of the fuel.
abbrev pub Others : Type 0
Others = ℕ → World → World

-- The `do` loop. `none` is an access through a pointer that is not valid; the inner `none` means that
-- the fuel ran out.
unfoldable pub pulse_loop : ℕ → Others → ℕ → Timespec → Bool → World → Option (Option World)
pulse_loop zero others p t stop w = some none
pulse_loop (suc fuel) others p t stop w = do
  (more, stop', w') ← pulse_round p t stop (others fuel w)
  elim more [ true ↦ pulse_loop fuel others p t stop' w' | false ↦ some (some w') ]

unfoldable pub wake : Option ℕ → World → World
wake none w = w
wake (some q) w = log (signal_wait q) (put q (record (w.motors q) { stop = false }) w)

-- Behind the loop: the request is destroyed, and a thread that waits for it is told.
unfoldable pub finish_request : ℕ → World → Option World
unfolding wake
finish_request p w = do
  (req, r) ← request_of w p
  w' ← stepper_destroy_request req w
  some (wake r.motor_waiting w')

-- The body of `while(1)` once a request is available.
unfoldable pub motor_pulser : ℕ → Others → ℕ → World → Option (Option World)
motor_pulser fuel others p w = do
  let t = microsec_to_timespec (w.motors p).half_period
  done ← pulse_loop fuel others p t false (put p (record (w.motors p) { req_available = false }) w)
  elim done [ none ↦ some none | some w' ↦ (do w'' ← finish_request p w'; some (some w'')) ]
