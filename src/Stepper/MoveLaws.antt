-- ===== src/Stepper/MoveLaws.antt =====
-- core/src/Stepper.c: a move from the call that starts it to the end of its request.
use cnc_robot_control.Common.{
  ℕ, suc, ◌-◌, ◌≤◌, ◌<◌, ◌^◌, ◌≡◌, ◌∙◌, refl, Bool, true, false, List, [], ◌∷◌, ◌++◌, append_assoc,
  none, some, arith, ◌==◌, if◌then◌else◌, length, Bool-cases, inl, inr, ==_iff,
}
use cnc_robot_control.Common.Int.{pos}
use cnc_robot_control.Stepper.CountLaws.{count, Distinct, AllRange, any_stop, not-member}
use cnc_robot_control.Stepper.PulseLaws.{idle, pulses, Ran, pulse_loop-Ran}
use cnc_robot_control.Stepper.Pulser.{motor_pulser, finish_request, wake, pulse_loop}
use cnc_robot_control.Stepper.Request.{
  clear_loop, step_pins, stepper_destroy_request, stepper_step_multiple, forget,
}
use cnc_robot_control.Stepper.SpeedLaws.{member, pointers}
use cnc_robot_control.Stepper.StepLaws.{
  Grants, begun, with_request, request_for, motors-assign_loop, motors-clear_loop, rest-clear_loop,
  stepper_step_multiple-success,
}
use cnc_robot_control.Stepper.Values.{success}
use cnc_robot_control.Stepper.World.{
  Stepper, StepperReq, World, Env, request_bulk, release_bulk, signal_req, put, log,
  stepper_is_busy,
}
use cnc_robot_control.Time.Calc.{Timespec, microsec_to_timespec}
use cnc_robot_control.Stepper.TakenLaws.{
  any_stop-same, taken, motors-taken, calls-taken, taken-keeps, taken-Serves,
}

pub destroy_request-lem :
    (req : ℕ) (r : StepperReq) (w : World)
    → w.requests req ≡ some r
    → stepper_destroy_request req w
      ≡ some (forget req (clear_loop r.motor_list (log (release_bulk r.pin_bulk) w)))
unfolding stepper_destroy_request
destroy_request-lem req r w f = rw (f, stepper_destroy_request) refl

finish_request-lem :
    (p req : ℕ) (r : StepperReq) (w : World)
    → (w.motors p).current_req ≡ some req
    → w.requests req ≡ some r
    → r.motor_waiting ≡ none
    → finish_request p w
      ≡ some (forget req (clear_loop r.motor_list (log (release_bulk r.pin_bulk) w)))
unfolding finish_request wake
finish_request-lem p req r w c f n = rw (c, f, destroy_request-lem req r w f, n) refl

-- A motor that has made `n` pulses for a request and is free again.
abbrev pub moved : ℕ → Bool → Stepper → Stepper
moved n available s = record (count n s) {
  current_req = none;
  shared_mutex = none;
  req_available = available;
}

-- From `w` to `w'` the motors `p ∷ ps` have moved by `n` steps, and all else is as before. The calls
-- are those of one request.
pub record Moved (n p : ℕ) (ps : List ℕ) (w w' : World) : Type 0 where
  pub first : w'.motors p ≡ moved n false (w.motors p)
  pub listed :
      (q : ℕ) → member q ps ≡ true → w'.motors q ≡ moved n (w.motors q).req_available (w.motors q)
  pub others : (q : ℕ) → member q (p ∷ ps) ≡ false → w'.motors q ≡ w.motors q
  pub over : w'.requests w.next_req ≡ none
  pub sent :
      w'.calls
      ≡ (w.calls ++ request_bulk (step_pins w (p ∷ ps)) ∷ signal_req p ∷ [])
        ++ pulses n (step_pins w (p ∷ ps)) (microsec_to_timespec (w.motors p).half_period)
        ++ release_bulk (step_pins w (p ∷ ps)) ∷ []

not-first : (p q : ℕ) (ps : List ℕ) → Distinct (p ∷ ps) → member q ps ≡ true → (p == q) ≡ false
not-first p q ps d m = elim (Bool-cases (p == q)) [
  | inl same ↦ absurd (not-member p q ps d.0 m ((==_iff p q).0 same))
  | inr other ↦ other
]

end_of : World → List ℕ → ℕ → World → World
end_of w ps req w' = forget req (clear_loop ps (log (release_bulk (step_pins w ps)) w'))

end_of-motors :
    (n p : ℕ) (ps : List ℕ) (w w' : World) (q : ℕ)
    → Ran n w.next_req
        (request_for w (p ∷ ps) n)
        (microsec_to_timespec (w.motors p).half_period)
        (taken w p ps n)
        w'
    → (end_of w (p ∷ ps) w.next_req w').motors q ≡ (
        if p == q
        then moved n false (w.motors q)
        else if member q ps
        then moved n (w.motors q).req_available (w.motors q)
        else w.motors q)
unfolding end_of
end_of-motors n p ps w w' q ran = ground (
  arith,
  motors-clear_loop (p ∷ ps) (log (release_bulk (step_pins w (p ∷ ps))) w') q,
  ran.counters q,
  motors-taken w p ps n q,
)

end_of-Moved :
    (n p : ℕ) (ps : List ℕ) (w w' : World)
    → Distinct (p ∷ ps)
    → Ran n w.next_req
        (request_for w (p ∷ ps) n)
        (microsec_to_timespec (w.motors p).half_period)
        (taken w p ps n)
        w'
    → Moved n p ps w (end_of w (p ∷ ps) w.next_req w')
unfolding end_of
end_of-Moved n p ps w w' d ran =
    let bulk = step_pins w (p ∷ ps) in
    let motors = λ (q : ℕ). end_of-motors n p ps w w' q ran in
    let cleared = rest-clear_loop (p ∷ ps) (log (release_bulk bulk) w') in
    let calls = calls-taken w p ps n in
    record {
      first = ground (arith, motors p);
      listed = λ q m. motors q ∙ rw (not-first p q ps d m, m) refl;
      others = λ q m. ground (arith, motors q);
      over = ground arith;
      sent = rw (cleared.1, ran.sent, calls) (simp append_assoc);
    }

begun-half_period :
    (w : World) (p : ℕ) (ps : List ℕ) (steps : ℕ)
    → ((begun w p ps steps).motors p).half_period ≡ (w.motors p).half_period
begun-half_period w p ps steps =
    ground (arith, motors-assign_loop w.next_req (p ∷ ps) (with_request w (p ∷ ps) steps) p)

motor_pulser-ends :
    (fuel p : ℕ) (t : Timespec) (w w' w'' : World)
    → microsec_to_timespec (w.motors p).half_period ≡ t
    → pulse_loop fuel idle p t false (put p (record (w.motors p) { req_available = false }) w)
      ≡ some (some w')
    → finish_request p w' ≡ some w''
    → motor_pulser fuel idle p w ≡ some (some w'')
unfolding motor_pulser
motor_pulser-ends fuel p t w w' w'' h runs f = rw (h, runs, f) refl

current-Ran :
    (n p : ℕ) (ps : List ℕ) (w w' : World)
    → Ran n w.next_req
        (request_for w (p ∷ ps) n)
        (microsec_to_timespec (w.motors p).half_period)
        (taken w p ps n)
        w'
    → (w'.motors p).current_req ≡ some w.next_req
current-Ran n p ps w w' ran = ground (arith, ran.counters p, motors-taken w p ps n p)

-- A move of one to eight distinct motors by at least one and less than 2 ^ 32 steps, for which the step
-- counters have room, with the first motor not busy, no stop asked for, all resources granted and no
-- other thread in between: the call that starts it succeeds, and the thread of the first motor ends
-- its loop within as many rounds as there are steps. Every listed motor has then made that many steps
-- in its direction and is free again, no other motor has changed, the request is gone, and the driver
-- has seen one request of the lines, the pulses and the release of the lines.
pub move-Moved :
    (env : Env) (n fuel p : ℕ) (ps : List ℕ) (w : World)
    → n < fuel
    → suc n < 2 ^ 32
    → length (p ∷ ps) ≤ 8
    → Distinct (p ∷ ps)
    → AllRange (suc n) (p ∷ ps) w.motors
    → any_stop (p ∷ ps) w.motors ≡ false
    → stepper_is_busy w p ≡ false
    → Grants env w (p ∷ ps)
    → (w1 w2 : World) × (stepper_step_multiple env
          (some (pointers (p ∷ ps)))
          (suc n)
          (pos (length (p ∷ ps)))
          w
        ≡ some (success, w1))
      × (motor_pulser fuel idle p w1 ≡ some (some w2))
      × Moved (suc n) p ps w w2
unfolding end_of
move-Moved env n fuel p ps w f u l d a s b g =
    let t = microsec_to_timespec (w.motors p).half_period in
    let r = request_for w (p ∷ ps) (suc n) in
    let w0 = taken w p ps (suc n) in
    let keeps = λ (q : ℕ). taken-keeps w p ps (suc n) q in
    let (w', runs, ran) =
      pulse_loop-Ran n fuel p w.next_req r t w0 (taken-Serves w p ps n d a) refl u
        (any_stop-same (p ∷ ps) w0.motors w.motors (λ q. (keeps q).1) ∙ s) f in
    (
      begun w p ps (suc n),
      end_of w (p ∷ ps) w.next_req w',
      stepper_step_multiple-success env p ps (suc n) w (omega arith) l b g,
      motor_pulser-ends fuel p t (begun w p ps (suc n)) w' (end_of w (p ∷ ps) w.next_req w')
          (rw (begun-half_period w p ps (suc n)) refl) runs
          (finish_request-lem p w.next_req (record r { req_steps = r.req_steps - suc n }) w'
            (current-Ran (suc n) p ps w w' ran) ran.left refl),
      end_of-Moved (suc n) p ps w w' d ran,
    )
