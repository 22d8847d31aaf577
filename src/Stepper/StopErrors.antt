-- ===== src/Stepper/StopErrors.antt =====
-- core/src/Stepper.c: two threads that stop motors of one request.
use cnc_robot_control.Common.{ℕ, suc, ◌≡◌, ◌∙◌, refl, true, false, [], ◌∷◌, ◌++◌, some, arith, ◌==◌}
use cnc_robot_control.Stepper.Control.{stepper_stop}
use cnc_robot_control.Stepper.PulseLaws.{
  idle, pulses, Serves, round_of, round-found, round-motors, round-calls,
}
use cnc_robot_control.Stepper.Pulser.{finish_request, wake, pulse_loop, decrement}
use cnc_robot_control.Stepper.SpeedLaws.{member}
use cnc_robot_control.Stepper.StepLaws.{motors-clear_loop}
use cnc_robot_control.Stepper.StopLaws.{
  told, stop-told, told-Serves, any_stop-told, pulse_loop-stops, woken, finish_request-woken,
  woken-first, current-round,
}
use cnc_robot_control.Stepper.World.{StepperReq, World, release_bulk, signal_wait, log}
use cnc_robot_control.Time.Calc.{Timespec}

-- Only the motor that waits has its flag cleared.
woken-stop :
    (q i req : ℕ) (r : StepperReq) (w : World)
    → (q == i) ≡ false
    → ((woken q req r w).motors i).stop ≡ (w.motors i).stop
unfolding wake
woken-stop q i req r w e =
    ground (arith, e, motors-clear_loop r.motor_list (log (release_bulk r.pin_bulk) w) i)

round-stop :
    (p req i : ℕ) (r : StepperReq) (t : Timespec) (w : World)
    → Serves p req r 1 w
    → ((round_of req r t w).motors i).stop ≡ (w.motors i).stop
round-stop p req i r t w v = ground (arith, round-motors req i r t w v.distinct)

-- Two threads that stop two motors of one request, with nothing in between: both calls wait, the loop ends
-- after one round, and its end tells only the thread that was second. The first one is not told, and the
-- stop flag of its motor stays set for the next request.
pub stepper_stop-twice :
    (fuel p q q' req m m' : ℕ) (r : StepperReq) (t : Timespec) (w : World)
    → Serves p req r 1 w
    → member q' r.motor_list ≡ true
    → (q == q') ≡ false
    → (w.motors q).current_req ≡ some req
    → (w.motors q).shared_mutex ≡ some m
    → (w.motors q').current_req ≡ some req
    → (w.motors q').shared_mutex ≡ some m'
    → (w1 w2 w3 w4 : World) × (stepper_stop (some q) w ≡ some (true, w1))
      × (stepper_stop (some q') w1 ≡ some (true, w2))
      × (pulse_loop (suc fuel) idle p t false w2 ≡ some (some w3))
      × (finish_request p w3 ≡ some w4)
      × ((w4.motors q).stop ≡ true)
      × ((w4.motors q').stop ≡ false)
      × (w4.calls
          ≡ ((w.calls ++ pulses 1 r.pin_bulk t) ++ release_bulk r.pin_bulk ∷ [])
            ++ signal_wait q' ∷ [])
stepper_stop-twice fuel p q q' req m m' r t w v e d c b c' b' =
    let r1 = record r { motor_waiting = some q } in
    let r2 = record r { motor_waiting = some q' } in
    let r3 = record r2 { req_steps = decrement r.req_steps } in
    let w1 = told q req r w in
    let w2 = told q' req r1 w1 in
    let w3 = round_of req r2 t w2 in
    let v1 = told-Serves p q req r w v in
    let v2 = told-Serves p q' req r1 w1 v1 in
    let (flag, _, calls) = woken-first q' req r3 w3 in
    let back : (q' == q) ≡ false = ground (arith, d) in
    (
      w1,
      w2,
      w3,
      woken q' req r3 w3,
      stop-told q req m r w c b v.found,
      stop-told q' req m' r1 w1 (rw d c') (rw d b') v1.found,
      pulse_loop-stops fuel p req r2 t w2 v2 (any_stop-told q' req r1 w1 e),
      finish_request-woken p q' req r3 w3 (current-round p req r2 t w2 v2) (round-found req r2 t w2)
          refl,
      woken-stop q' q req r3 w3 back ∙ round-stop p req q r2 t w2 v2 ∙ ground (arith, back),
      flag,
      calls ∙ rw (round-calls req r2 t w2) refl,
    )
