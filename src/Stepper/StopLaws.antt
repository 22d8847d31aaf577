-- ===== src/Stepper/StopLaws.antt =====
-- core/src/Stepper.c: what `stepper_stop` does to the loop of `motor_pulser`.
use cnc_robot_control.Common.{
  ℕ, suc, ◌≡◌, ◌∙◌, refl, true, false, List, [], ◌∷◌, ◌++◌, none, some, arith, ◌==◌, Bool-cases,
  ==_iff, inl, inr,
}
use cnc_robot_control.Stepper.Control.{stepper_stop, stepper_wait}
use cnc_robot_control.Stepper.CountLaws.{any_stop}
use cnc_robot_control.Stepper.MoveLaws.{destroy_request-lem}
use cnc_robot_control.Stepper.PulseLaws.{
  idle, pulses, Serves, round_of, pulse_round-lem, round-found, round-motors, round-calls,
}
use cnc_robot_control.Stepper.Pulser.{
  finish_request, wake, set_request, pulse_loop, pulse_round, decrement,
}
use cnc_robot_control.Stepper.Request.{clear_loop, forget}
use cnc_robot_control.Stepper.SpeedLaws.{member}
use cnc_robot_control.Stepper.StepLaws.{motors-clear_loop, rest-clear_loop}
use cnc_robot_control.Stepper.World.{
  Stepper, StepperReq, World, release_bulk, signal_wait, put, log, stepper_is_busy,
}
use cnc_robot_control.Time.Calc.{Timespec}

any_stop-member :
    (ps : List ℕ) (f : ℕ → Stepper) (q : ℕ)
    → member q ps ≡ true
    → (f q).stop ≡ true
    → any_stop ps f ≡ true
any_stop-member [] f q m s = ground arith
any_stop-member (p ∷ ps) f q m s = elim (Bool-cases (p == q)) [
  | inl same ↦ rw ((==_iff p q).0 same, s) refl
  | inr other ↦ ground (arith, any_stop-member ps f q (rw other at m) s)
]

-- The world in which the motor `q`, served by the request `r`, has been told to stop.
abbrev pub told : ℕ → ℕ → StepperReq → World → World
told q req r w =
    set_request req (record r { motor_waiting = some q })
      (put q (record (w.motors q) { stop = true }) w)

pub stop-told :
    (q req m : ℕ) (r : StepperReq) (w : World)
    → (w.motors q).current_req ≡ some req
    → (w.motors q).shared_mutex ≡ some m
    → w.requests req ≡ some r
    → stepper_stop (some q) w ≡ some (true, told q req r w)
unfolding stepper_stop stepper_wait
stop-told q req m r w c b f = ground arith

pub told-Serves :
    (p q req : ℕ) (r : StepperReq) (w : World)
    → Serves p req r 1 w
    → Serves p req (record r { motor_waiting = some q }) 1 (told q req r w)
told-Serves p q req r w v = record {
  points = ground (arith, v.points);
  found = ground arith;
  distinct = v.distinct;
  ranges = λ i e. elim (Bool-cases (q == i)) [
    | inl same ↦ rw same (rw (← (==_iff q i).0 same) at (v.ranges i e))
    | inr other ↦ rw other (v.ranges i e)
  ];
}

pub any_stop-told :
    (q req : ℕ) (r : StepperReq) (w : World)
    → member q r.motor_list ≡ true
    → any_stop r.motor_list (told q req r w).motors ≡ true
any_stop-told q req r w m = any_stop-member r.motor_list (told q req r w).motors q m (ground arith)

pub pulse_loop-stops :
    (fuel p req : ℕ) (r : StepperReq) (t : Timespec) (w : World)
    → Serves p req r 1 w
    → any_stop r.motor_list w.motors ≡ true
    → pulse_loop (suc fuel) idle p t false w ≡ some (some (round_of req r t w))
unfolding pulse_loop
pulse_loop-stops fuel p req r t w v s =
    let ends : pulse_round p t false w ≡ some (false, true, round_of req r t w) =
      pulse_round-lem p req r t w v ∙ ground (arith, s) in
    rw (ends, pulse_loop) refl

-- The world after the request, which `q` waits for, has been destroyed.
abbrev pub woken : ℕ → ℕ → StepperReq → World → World
woken q req r w =
    wake (some q) (forget req (clear_loop r.motor_list (log (release_bulk r.pin_bulk) w)))

pub finish_request-woken :
    (p q req : ℕ) (r : StepperReq) (w : World)
    → (w.motors p).current_req ≡ some req
    → w.requests req ≡ some r
    → r.motor_waiting ≡ some q
    → finish_request p w ≡ some (woken q req r w)
unfolding finish_request
finish_request-woken p q req r w c f n = rw (c, f, destroy_request-lem req r w f, n) refl

woken-motors :
    (q req i : ℕ) (r : StepperReq) (w : World)
    → member i r.motor_list ≡ true
    → stepper_is_busy (woken q req r w) i ≡ false
unfolding wake
woken-motors q req i r w m =
    let cleared = λ (j : ℕ). motors-clear_loop r.motor_list (log (release_bulk r.pin_bulk) w) j in
    elim (Bool-cases (q == i)) [
      | inl same ↦ ground (arith, cleared q, (==_iff q i).0 same)
      | inr other ↦ ground (arith, cleared i)
    ]

pub woken-first :
    (q req : ℕ) (r : StepperReq) (w : World)
    → (((woken q req r w).motors q).stop ≡ false)
      × ((woken q req r w).requests req ≡ none)
      × ((woken q req r w).calls ≡ (w.calls ++ release_bulk r.pin_bulk ∷ []) ++ signal_wait q ∷ [])
unfolding wake
woken-first q req r w =
    let rest = rest-clear_loop r.motor_list (log (release_bulk r.pin_bulk) w) in
    (ground arith, ground arith, rw (rest.1) refl)

pub current-round :
    (p req : ℕ) (r : StepperReq) (t : Timespec) (w : World)
    → Serves p req r 1 w
    → ((round_of req r t w).motors p).current_req ≡ some req
current-round p req r t w v = ground (arith, round-motors req p r t w v.distinct, v.points)

-- Stopping a motor that a request serves, whose motors are distinct and have room for one more step in
-- their counters, with no other thread in between: the call waits, the loop of the handler thread ends after
-- the round that it makes next, whatever is left of the steps, and behind it the stop flag is cleared,
-- every motor of the request is free, and the driver has seen one more pulse, the release of the
-- lines and the signal to the thread that waits.
pub stepper_stop-ends :
    (fuel p q req m : ℕ) (r : StepperReq) (t : Timespec) (w : World)
    → Serves p req r 1 w
    → member q r.motor_list ≡ true
    → (w.motors q).current_req ≡ some req
    → (w.motors q).shared_mutex ≡ some m
    → (w1 w2 w3 : World) × (stepper_stop (some q) w ≡ some (true, w1))
      × (pulse_loop (suc fuel) idle p t false w1 ≡ some (some w2))
      × (finish_request p w2 ≡ some w3)
      × ((w3.motors q).stop ≡ false)
      × ((i : ℕ) → member i r.motor_list ≡ true → stepper_is_busy w3 i ≡ false)
      × (w3.calls
          ≡ ((w.calls ++ pulses 1 r.pin_bulk t) ++ release_bulk r.pin_bulk ∷ [])
            ++ signal_wait q ∷ [])
stepper_stop-ends fuel p q req m r t w v e c b =
    let r1 = record r { motor_waiting = some q } in
    let w1 = told q req r w in
    let w2 = round_of req r1 t w1 in
    let r2 = record r1 { req_steps = decrement r.req_steps } in
    let served = told-Serves p q req r w v in
    let (flag, _, calls) = woken-first q req r2 w2 in
    (
      w1,
      w2,
      woken q req r2 w2,
      stop-told q req m r w c b v.found,
      pulse_loop-stops fuel p req r1 t w1 served (any_stop-told q req r w e),
      finish_request-woken p q req r2 w2 (current-round p req r1 t w1 served)
          (round-found req r1 t w1) refl,
      flag,
      λ i l. woken-motors q req i r2 w2 l,
      calls ∙ rw (round-calls req r1 t w1) refl,
    )
