-- ===== src/Stepper/PulseLaws.antt =====
-- core/src/Stepper.c: how many pulses `motor_pulser` makes for a request.
use mathlib.Core.Path.{subst}
use cnc_robot_control.Common.{
  ℕ, zero, suc, ◌-◌, ◌^◌, ◌<◌, ◌≡◌, ◌∙◌, ap, refl, Bool, true, false, not, ◌&&◌, List, [], ◌∷◌,
  ◌++◌, append_assoc, some, arith, ◌==◌, if◌then◌else◌,
}
use cnc_robot_control.Stepper.CountLaws.{
  count, count-count, Distinct, AllRange, any_stop, counted_one, count_loop-counted_one,
  motors-counted_one, rest-counted_one, AllRange-counted_one, AllRange-le,
}
use cnc_robot_control.Stepper.Pulser.{
  pulse, decrement, set_request, pulse_round, Others, pulse_loop,
}
use cnc_robot_control.Stepper.SpeedLaws.{member}
use cnc_robot_control.Stepper.World.{StepperReq, World, Call, write_bulk, nanosleep}
use cnc_robot_control.Time.Calc.{Timespec}

-- No other thread touches the world.
abbrev pub idle : Others
idle n w = w

-- The calls of `n` pulses of a bulk of lines.
abbrev pub pulses : ℕ → List ℕ → Timespec → List Call
pulses zero bulk t = []
pulses (suc n) bulk t =
    write_bulk bulk true ∷ nanosleep t ∷ write_bulk bulk false ∷ nanosleep t ∷ pulses n bulk t

-- The world after one round for the request `r`.
abbrev pub round_of : ℕ → StepperReq → Timespec → World → World
round_of req r t w =
    set_request req (record r { req_steps = decrement r.req_steps })
      (counted_one r.motor_list (pulse r.pin_bulk t w))

-- `p` points to the request `r`, with number `req`, whose motors are distinct and all count.
pub record Serves (p req : ℕ) (r : StepperReq) (n : ℕ) (w : World) : Type 0 where
  pub points : (w.motors p).current_req ≡ some req
  pub found : w.requests req ≡ some r
  pub distinct : Distinct r.motor_list
  pub ranges : AllRange n r.motor_list w.motors

pub pulse_round-lem :
    (p req : ℕ) (r : StepperReq) (t : Timespec) (w : World)
    → Serves p req r 1 w
    → pulse_round p t false w ≡ (
        let stop = any_stop r.motor_list w.motors in
        some (not (decrement r.req_steps == 0) && not stop, stop, round_of req r t w))
unfolding pulse_round
pulse_round-lem p req r t w v = ground (
  arith,
  v.points,
  v.found,
  count_loop-counted_one r.motor_list false (pulse r.pin_bulk t w) v.distinct v.ranges,
)

-- From `w` to `w'` the motors of the request have made `n` pulses, and no others.
pub record Ran (n req : ℕ) (r : StepperReq) (t : Timespec) (w w' : World) : Type 0 where
  pub counters :
      (q : ℕ) → w'.motors q ≡ (if member q r.motor_list then count n (w.motors q) else w.motors q)
  pub left : w'.requests req ≡ some (record r { req_steps = r.req_steps - n })
  pub sent : w'.calls ≡ w.calls ++ pulses n r.pin_bulk t

pub round-motors :
    (req q : ℕ) (r : StepperReq) (t : Timespec) (w : World)
    → Distinct r.motor_list
    → (round_of req r t w).motors q
      ≡ (if member q r.motor_list then count 1 (w.motors q) else w.motors q)
round-motors req q r t w d = motors-counted_one r.motor_list (pulse r.pin_bulk t w) q d

pub round-calls :
    (req : ℕ) (r : StepperReq) (t : Timespec) (w : World)
    → (round_of req r t w).calls ≡ w.calls ++ pulses 1 r.pin_bulk t
round-calls req r t w = (rest-counted_one r.motor_list (pulse r.pin_bulk t w)).1 ∙ simp append_assoc

pub round-found :
    (req : ℕ) (r : StepperReq) (t : Timespec) (w : World)
    → (round_of req r t w).requests req ≡ some (record r { req_steps = decrement r.req_steps })
round-found req r t w = ground arith

pub round-Serves :
    (p req n : ℕ) (r : StepperReq) (t : Timespec) (w : World)
    → Serves p req r (suc n) w
    → Serves p req (record r { req_steps = decrement r.req_steps }) n (round_of req r t w)
round-Serves p req n r t w v = record {
  points = ground (arith, round-motors req p r t w v.distinct, v.points);
  found = round-found req r t w;
  distinct = v.distinct;
  ranges = AllRange-counted_one n r.motor_list (pulse r.pin_bulk t w) v.distinct v.ranges;
}

round-Ran :
    (req : ℕ) (r : StepperReq) (t : Timespec) (w : World)
    → Distinct r.motor_list
    → 0 < r.req_steps
    → r.req_steps < 2 ^ 32
    → Ran 1 req r t w (round_of req r t w)
round-Ran req r t w d p u = record {
  counters = λ q. round-motors req q r t w d;
  left = round-found req r t w ∙ ap (λ (k : ℕ). some (record r { req_steps = k })) (omega arith);
  sent = round-calls req r t w;
}

Ran-then :
    (n req : ℕ) (r : StepperReq) (t : Timespec) (w w1 w' : World)
    → Ran 1 req r t w w1
    → Ran n req (record r { req_steps = r.req_steps - 1 }) t w1 w'
    → Ran (suc n) req r t w w'
Ran-then n req r t w w1 w' a b = record {
  counters = λ q. ground (arith, a.counters q, b.counters q, count-count n (w.motors q));
  left = b.left ∙ ap (λ (k : ℕ). some (record r { req_steps = k })) (omega arith);
  sent = b.sent ∙ rw a.sent (append_assoc w.calls (pulses 1 r.pin_bulk t) (pulses n r.pin_bulk t));
}

round_more :
    (n p req : ℕ) (r : StepperReq) (t : Timespec) (w : World) (more : Bool)
    → not (n == 0) ≡ more
    → Serves p req r (suc n) w
    → r.req_steps ≡ suc n
    → suc n < 2 ^ 32
    → any_stop r.motor_list w.motors ≡ false
    → pulse_round p t false w ≡ some (more, false, round_of req r t w)
round_more n p req r t w more m v e u s =
    let once = AllRange-le 1 (suc n) r.motor_list w.motors (omega arith) v.ranges in
    let v' : Serves p req r 1 w = record {
      points = v.points;
      found = v.found;
      distinct = v.distinct;
      ranges = once;
    } in
    let less : decrement r.req_steps ≡ n = omega arith in
    pulse_round-lem p req r t w v' ∙ ground (arith, less, s, m)

stop-round :
    (req : ℕ) (r : StepperReq) (t : Timespec) (w : World) (ps : List ℕ)
    → Distinct r.motor_list
    → any_stop ps w.motors ≡ false
    → any_stop ps (round_of req r t w).motors ≡ false
stop-round req r t w [] d s = refl
stop-round req r t w (q ∷ ps) d s =
    ground (arith, round-motors req q r t w d, stop-round req r t w ps d)

-- For distinct motors whose step counters have room for `n + 1 < 2 ^ 32` steps, with no stop asked for
-- and no other thread in between, a request for `n + 1` steps makes exactly
-- that many pulses and ends: the fuel of the loop need only be greater than `n`.
pub pulse_loop-Ran :
    (n fuel p req : ℕ) (r : StepperReq) (t : Timespec) (w : World)
    → Serves p req r (suc n) w
    → r.req_steps ≡ suc n
    → suc n < 2 ^ 32
    → any_stop r.motor_list w.motors ≡ false
    → n < fuel
    → (w' : World) × (pulse_loop fuel idle p t false w ≡ some (some w')) × Ran (suc n) req r t w w'
unfolding pulse_loop
pulse_loop-Ran n zero p req r t w v e u s h = elim h [ ]
pulse_loop-Ran zero (suc fuel) p req r t w v e u s h = (
  round_of req r t w,
  rw (round_more zero p req r t w false refl v e u s, pulse_loop),
  round-Ran req r t w v.distinct (omega arith) (omega arith),
)
pulse_loop-Ran (suc n) (suc fuel) p req r t w v e u s h =
    let w1 = round_of req r t w in
    let less : decrement r.req_steps ≡ suc n = omega arith in
    let r1 = record r { req_steps = decrement r.req_steps } in
    let (w', runs, ran) =
      pulse_loop-Ran n fuel p req r1 t w1 (round-Serves p req (suc n) r t w v) less (omega arith)
        (stop-round req r t w r.motor_list v.distinct s) (omega arith) in
    (
      w',
      rw (round_more (suc n) p req r t w true (ground arith) v e u s, pulse_loop) runs,
      Ran-then (suc n) req r t w w1 w' (round-Ran req r t w v.distinct (omega arith) (omega arith))
          (subst (λ (k : ℕ). Ran (suc n) req (record r { req_steps = k }) t w1 w') (omega arith)
            ran),
    )
