-- ===== src/Stepper/TakenLaws.antt =====
-- core/src/Stepper.c: the world in which the handler thread has taken a request.
use cnc_robot_control.Common.{
  ℕ, suc, ◌≡◌, refl, false, List, [], ◌∷◌, ◌++◌, some, arith, ◌==◌, if◌then◌else◌,
}
use cnc_robot_control.Stepper.CountLaws.{Distinct, AllRange, any_stop}
use cnc_robot_control.Stepper.PulseLaws.{Serves}
use cnc_robot_control.Stepper.Request.{step_pins}
use cnc_robot_control.Stepper.SpeedLaws.{member}
use cnc_robot_control.Stepper.StepLaws.{
  begun, with_request, request_for, motors-assign_loop, rest-assign_loop,
}
use cnc_robot_control.Stepper.World.{Stepper, World, request_bulk, signal_req, put}

pub any_stop-same :
    (ps : List ℕ) (f g : ℕ → Stepper)
    → ((q : ℕ) → (f q).stop ≡ (g q).stop)
    → any_stop ps f ≡ any_stop ps g
any_stop-same [] f g h = refl
any_stop-same (p ∷ ps) f g h = rw (h p, any_stop-same ps f g h)

-- The world when the handler thread has taken the request.
abbrev pub taken : World → ℕ → List ℕ → ℕ → World
taken w p ps steps =
    let b = begun w p ps steps in put p (record (b.motors p) { req_available = false }) b

-- A motor whose request has been taken by the thread of the motor `p`.
abbrev pub serving : ℕ → Stepper → Stepper
serving req s = record s { current_req = some req; shared_mutex = some req }

pub motors-taken :
    (w : World) (p : ℕ) (ps : List ℕ) (steps q : ℕ)
    → (taken w p ps steps).motors q ≡ (
        if p == q
        then record (w.motors q) {
          current_req = some w.next_req;
          shared_mutex = some w.next_req;
          req_available = false;
        }
        else if member q ps
        then serving w.next_req (w.motors q)
        else w.motors q)
motors-taken w p ps steps q = ground (
  arith,
  motors-assign_loop w.next_req (p ∷ ps) (with_request w (p ∷ ps) steps) q,
  motors-assign_loop w.next_req (p ∷ ps) (with_request w (p ∷ ps) steps) p,
)

pub requests-taken :
    (w : World) (p : ℕ) (ps : List ℕ) (steps q : ℕ)
    → (taken w p ps steps).requests q
      ≡ (if w.next_req == q then some (request_for w (p ∷ ps) steps) else w.requests q)
requests-taken w p ps steps q =
    ground (arith, (rest-assign_loop w.next_req (p ∷ ps) (with_request w (p ∷ ps) steps)).0)

pub calls-taken :
    (w : World) (p : ℕ) (ps : List ℕ) (steps : ℕ)
    → (taken w p ps steps).calls
      ≡ (w.calls ++ request_bulk (step_pins w (p ∷ ps)) ∷ []) ++ signal_req p ∷ []
calls-taken w p ps steps =
    rw ((rest-assign_loop w.next_req (p ∷ ps) (with_request w (p ∷ ps) steps)).1) refl

pub taken-keeps :
    (w : World) (p : ℕ) (ps : List ℕ) (steps q : ℕ)
    → ((taken w p ps steps).motors q).steps ≡ (w.motors q).steps
      × ((taken w p ps steps).motors q).stop ≡ (w.motors q).stop
      × ((taken w p ps steps).motors q).curr_direction ≡ (w.motors q).curr_direction
      × ((taken w p ps steps).motors q).pos_direction ≡ (w.motors q).pos_direction
      × ((taken w p ps steps).motors q).half_period ≡ (w.motors q).half_period
taken-keeps w p ps steps q = ground (arith, motors-taken w p ps steps q)

pub taken-Serves :
    (w : World) (p : ℕ) (ps : List ℕ) (n : ℕ)
    → Distinct (p ∷ ps)
    → AllRange (suc n) (p ∷ ps) w.motors
    → Serves p w.next_req (request_for w (p ∷ ps) (suc n)) (suc n) (taken w p ps (suc n))
taken-Serves w p ps n d a = record {
  points = ground (arith, motors-taken w p ps (suc n) p);
  found = ground (arith, requests-taken w p ps (suc n) w.next_req);
  distinct = d;
  ranges = λ q e. let (s, _, c, o, _) = taken-keeps w p ps (suc n) q in rw (s) (a q e);
}
