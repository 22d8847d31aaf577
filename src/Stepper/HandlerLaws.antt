-- ===== src/Stepper/HandlerLaws.antt =====
-- core/src/Stepper.c: a whole request in `motor_pulser`, while other threads use its motors.
use cnc_robot_control.Common.{
  ℕ, suc, ◌-◌, ◌^◌, ◌<◌, ◌≡◌, ◌∙◌, ap, refl, true, false, List, [], ◌∷◌, append-nil, Option, none,
  some, arith, ◌==◌, Bool-cases, inl, inr, ==_iff,
}
use cnc_robot_control.Stepper.MoveLaws.{destroy_request-lem}
use cnc_robot_control.Stepper.PulseLaws.{Serves}
use cnc_robot_control.Stepper.Pulser.{motor_pulser, finish_request, wake, Others}
use cnc_robot_control.Stepper.Request.{clear_loop, forget}
use cnc_robot_control.Stepper.SharedLaws.{pulse_loop-Tracked}
use cnc_robot_control.Stepper.Sharing.{Rely, Tracked, written, written-append}
use cnc_robot_control.Stepper.SpeedLaws.{member}
use cnc_robot_control.Stepper.StepLaws.{motors-clear_loop, rest-clear_loop}
use cnc_robot_control.Stepper.World.{
  Stepper, StepperReq, World, release_bulk, signal_wait, put, log, stepper_is_busy,
}
use cnc_robot_control.Time.Calc.{microsec_to_timespec}

-- The handler thread takes the request up.
abbrev pub taken_up : ℕ → World → World
taken_up p w = put p (record (w.motors p) { req_available = false }) w

taken_up-Serves :
    (n p req : ℕ) (r : StepperReq) (w : World)
    → Serves p req r n w
    → Serves p req r n (taken_up p w)
taken_up-Serves n p req r w v = record {
  points = ground (arith, v.points);
  found = v.found;
  distinct = v.distinct;
  ranges = λ i e. elim (Bool-cases (p == i)) [
    | inl same ↦ rw same (rw (← (==_iff p i).0 same) at (v.ranges i e))
    | inr other ↦ rw other (v.ranges i e)
  ];
}

-- The world behind the loop, with the request destroyed.
abbrev destroyed : ℕ → StepperReq → World → World
destroyed req r w = forget req (clear_loop r.motor_list (log (release_bulk r.pin_bulk) w))

-- The end of a request: its motors are free and have kept their counters, it is gone, and its lines have
-- seen nothing more.
pub record Finished (req : ℕ) (r : StepperReq) (w w' : World) : Type 0 where
  pub free : (q : ℕ) → member q r.motor_list ≡ true → stepper_is_busy w' q ≡ false
  pub kept : (q : ℕ) → member q r.motor_list ≡ true → (w'.motors q).steps ≡ (w.motors q).steps
  pub over : w'.requests req ≡ none
  pub still : written r.pin_bulk w'.calls ≡ written r.pin_bulk w.calls

wake-motors :
    (waiting : Option ℕ) (q : ℕ) (w : World)
    → (stepper_is_busy (wake waiting w) q ≡ stepper_is_busy w q)
      × (((wake waiting w).motors q).steps ≡ (w.motors q).steps)
unfolding wake
wake-motors none q w = (refl, refl)
wake-motors (some p) q w = elim (Bool-cases (p == q)) [
  | inl same ↦
      let e : p ≡ q = (==_iff p q).0 same in
      rw same (ap (λ i. stepper_is_busy w i) e, ap (λ i. (w.motors i).steps) e)
  | inr other ↦ rw other (refl, refl)
]

wake-rest :
    (waiting : Option ℕ) (bulk : List ℕ) (req : ℕ) (w : World)
    → ((wake waiting w).requests req ≡ w.requests req)
      × (written bulk (wake waiting w).calls ≡ written bulk w.calls)
unfolding wake
wake-rest none bulk req w = (refl, refl)
wake-rest (some p) bulk req w =
    (refl, written-append bulk w.calls (signal_wait p ∷ []) ∙ append-nil (written bulk w.calls))

destroyed-Finished :
    (req : ℕ) (r : StepperReq) (waiting : Option ℕ) (w : World)
    → Finished req r w (wake waiting (destroyed req r w))
destroyed-Finished req r waiting w =
    let gone = destroyed req r w in
    let cleared = λ (q : ℕ). motors-clear_loop r.motor_list (log (release_bulk r.pin_bulk) w) q in
    let rest = rest-clear_loop r.motor_list (log (release_bulk r.pin_bulk) w) in
    record {
      free = λ q e. (wake-motors waiting q gone).0 ∙ rw (cleared q, e) refl;
      kept = λ q e. (wake-motors waiting q gone).1 ∙ rw (cleared q, e) refl;
      over = (wake-rest waiting r.pin_bulk req gone).0 ∙ ground arith;
      still =
          (wake-rest waiting r.pin_bulk req gone).1
          ∙ ap (written r.pin_bulk) rest.1
          ∙ written-append r.pin_bulk w.calls (release_bulk r.pin_bulk ∷ [])
          ∙ append-nil (written r.pin_bulk w.calls);
    }

finish_request-Finished :
    (p req : ℕ) (r r' : StepperReq) (w : World)
    → (w.motors p).current_req ≡ some req
    → w.requests req ≡ some r'
    → finish_request p w ≡ some (wake r'.motor_waiting (destroyed req r' w))
unfolding finish_request
finish_request-Finished p req r r' w c f = rw (c, f, destroy_request-lem req r' w f) refl

-- Whatever other threads do to the motors of a request for `n + 1` steps, as far as `Rely` lets them: its
-- handler thread comes to its end within `n + 1` rounds, with all motors in step: each has counted
-- the pulses that the lines of the request have seen, at least one and at most `n + 1`, and fewer only
-- if one of the motors was asked to stop. Behind it the motors are free, the request is gone, and the
-- counters are as the loop has left them.
pub motor_pulser-Tracked :
    (n fuel p req : ℕ) (others : Others) (r : StepperReq) (w : World)
    → Rely req r.motor_list r.pin_bulk others
    → Serves p req r (suc n) w
    → member p r.motor_list ≡ true
    → r.req_steps ≡ suc n
    → suc n < 2 ^ 32
    → n < fuel
    → (j : ℕ) × (w1 w2 : World) × (motor_pulser fuel others p w ≡ some (some w2))
      × Tracked j (suc n) req r (taken_up p w) w1
      × Finished req r w1 w2
unfolding motor_pulser
motor_pulser-Tracked n fuel p req others r w rely v e steps u h =
    let t = microsec_to_timespec (w.motors p).half_period in
    let (j, w1, runs, track) =
      pulse_loop-Tracked p req t others n fuel r (taken_up p w) rely
        (taken_up-Serves (suc n) p req r w v) e steps u h in
    let (waiting, found) = track.went.left in
    let points : (w1.motors p).current_req ≡ some req =
      ap (λ (m : Stepper). m.current_req) (track.went.counters p e).1
      ∙ (taken_up-Serves (suc n) p req r w v).points in
    let r' = record r { motor_waiting = waiting; req_steps = r.req_steps - j } in
    let ends = finish_request-Finished p req r r' w1 points found in
    (
      j,
      w1,
      wake waiting (destroyed req r w1),
      rw (runs, ends) refl,
      track,
      destroyed-Finished req r waiting w1,
    )
