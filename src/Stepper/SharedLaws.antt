-- ===== src/Stepper/SharedLaws.antt =====
-- core/src/Stepper.c: the loop of `motor_pulser` while other threads use the motors of its request.
use cnc_robot_control.Common.{
  ℕ, zero, suc, ◌^◌, ◌<◌, ◌≡◌, ◌⊎◌, ◌∙◌, ap, refl, inl, inr, Bool, true, false, not, ◌&&◌, List, [],
  ◌∷◌, ◌++◌, append_assoc, Option, some, arith, ◌==◌, Bool-cases,
}
use cnc_robot_control.Stepper.CountLaws.{count, count-count, AllRange-le, any_stop, Distinct}
use cnc_robot_control.Stepper.PulseLaws.{
  Serves, round_of, pulse_round-lem, round-motors, round-calls, round-found, round-Serves,
}
use cnc_robot_control.Stepper.Pulser.{decrement, pulse_round, Others, pulse_loop}
use cnc_robot_control.Stepper.Sharing.{
  written, edges, flagged, Rely, Went, Tracked, written-append, written-pulses,
}
use cnc_robot_control.Stepper.SpeedLaws.{member}
use cnc_robot_control.Stepper.World.{StepperReq, World}
use cnc_robot_control.Time.Calc.{Timespec}

any_stop-round :
    (req : ℕ) (r : StepperReq) (t : Timespec) (w : World) (ps : List ℕ)
    → Distinct r.motor_list
    → any_stop ps (round_of req r t w).motors ≡ any_stop ps w.motors
any_stop-round req r t w [] d = refl
any_stop-round req r t w (q ∷ ps) d =
    ground (arith, round-motors req q r t w d, any_stop-round req r t w ps d)

-- The request, with the thread that waits for it.
abbrev awaited : Option ℕ → StepperReq → StepperReq
awaited q r = record r { motor_waiting = q }

others-Serves :
    (n p req k : ℕ) (r : StepperReq) (w w1 : World) (q : Option ℕ)
    → ((i : ℕ) → member i r.motor_list ≡ true → (b : Bool) × (w1.motors i ≡ flagged b (w.motors i)))
    → w1.requests req ≡ some (awaited q r)
    → member p r.motor_list ≡ true
    → Serves p req r n w
    → Serves p req (awaited q r) n w1
others-Serves n p req k r w w1 q m f e v = record {
  points = rw ((m p e).1) v.points;
  found = f;
  distinct = v.distinct;
  ranges = λ i e'. rw ((m i e').1) (v.ranges i e');
}

round-Went :
    (req : ℕ) (r : StepperReq) (t : Timespec) (w w1 : World) (q : Option ℕ)
    → Distinct r.motor_list
    → 0 < r.req_steps
    → r.req_steps < 2 ^ 32
    → ((i : ℕ) → member i r.motor_list ≡ true → (b : Bool) × (w1.motors i ≡ flagged b (w.motors i)))
    → written r.pin_bulk w1.calls ≡ written r.pin_bulk w.calls
    → Went 1 req r w (round_of req (awaited q r) t w1)
round-Went req r t w w1 q d p u m l = record {
  counters =
      λ i e. ((m i e).0, round-motors req i (awaited q r) t w1 d ∙ rw e (ap (count 1) (m i e).1));
  sent =
      ap (written r.pin_bulk) (round-calls req (awaited q r) t w1)
      ∙ written-append r.pin_bulk w1.calls _
      ∙ rw (written-pulses r.pin_bulk t) (ap (λ vs. vs ++ (true ∷ false ∷ [])) l);
  left = (
    q,
    round-found req (awaited q r) t w1
        ∙ ap (λ (k : ℕ). some (record r { motor_waiting = q; req_steps = k })) (omega arith),
  );
}

-- The request after a round.
abbrev next_request : Option ℕ → StepperReq → StepperReq
next_request q r = record r { motor_waiting = q; req_steps = decrement r.req_steps }

Went-then :
    (j req : ℕ) (r : StepperReq) (q : Option ℕ) (w w1 w' : World)
    → 0 < r.req_steps
    → r.req_steps < 2 ^ 32
    → Went 1 req r w w1
    → Went j req (next_request q r) w1 w'
    → Went (suc j) req r w w'
Went-then j req r q w w1 w' p u a b = record {
  counters = λ i e.
      let (c, first) = a.counters i e in
      let (c', more) = b.counters i e in
      (
        c',
        more
            ∙ ap (λ m. flagged c' (count j m)) first
            ∙ ap (flagged c') (count-count j (w.motors i)),
      );
  sent = b.sent ∙ rw a.sent (append_assoc (written r.pin_bulk w.calls) (edges 1) (edges j));
  left = (
    b.left.0,
    b.left.1
        ∙ ap (λ (k : ℕ). some (record r { motor_waiting = b.left.0; req_steps = k })) (omega arith),
  );
}

module _ (p req : ℕ) (t : Timespec) (others : Others) where
  -- A round, with what the others have done before it.
  shared_round :
      (n k : ℕ) (r : StepperReq) (w : World) (rely : Rely req r.motor_list r.pin_bulk others)
      → Serves p req r (suc n) w
      → member p r.motor_list ≡ true
      → r.req_steps ≡ suc n
      → suc n < 2 ^ 32
      → (q : Option ℕ) × (w1 : World) × (pulse_round p t false (others k w)
          ≡ some (
            not (n == 0) && not (any_stop r.motor_list w1.motors),
            any_stop r.motor_list w1.motors,
            w1,
          ))
        × Went 1 req r w w1
        × Serves p req (next_request q r) n w1
  shared_round n k r w rely v e steps u =
      let (q, f) = rely.request k r w v.found in
      let w0 = others k w in
      let same = λ (i : ℕ) (m : member i r.motor_list ≡ true). rely.motors k i w m in
      let v0 = others-Serves (suc n) p req k r w w0 q same f e v in
      let w1 = round_of req (awaited q r) t w0 in
      let once : Serves p req (awaited q r) 1 w0 = record {
        points = v0.points;
        found = v0.found;
        distinct = v0.distinct;
        ranges = AllRange-le 1 (suc n) r.motor_list w0.motors (omega arith) v0.ranges;
      } in
      let stop = any_stop-round req (awaited q r) t w0 r.motor_list v.distinct in
      let less : decrement r.req_steps ≡ n = omega arith in
      (
        q,
        w1,
        pulse_round-lem p req (awaited q r) t w0 once ∙ rw (less, stop) refl,
        round-Went req r t w w0 q v.distinct (omega arith) (omega arith) same (rely.lines k w),
        round-Serves p req n (awaited q r) t w0 v0,
      )

  -- Whatever other threads do to a request for `n + 1` steps, as far as `Rely` lets them, the loop ends
  -- within `n + 1` rounds, with all its motors in step: each has counted the pulses that its lines have
  -- seen, which are at least one and at most `n + 1`, and fewer only if one of the motors was asked to
  -- stop.
  pub pulse_loop-Tracked :
      (n fuel : ℕ) (r : StepperReq) (w : World)
      → Rely req r.motor_list r.pin_bulk others
      → Serves p req r (suc n) w
      → member p r.motor_list ≡ true
      → r.req_steps ≡ suc n
      → suc n < 2 ^ 32
      → n < fuel
      → (j : ℕ) × (w' : World) × (pulse_loop fuel others p t false w ≡ some (some w'))
        × Tracked j (suc n) req r w w'
  unfolding pulse_loop
  pulse_loop-Tracked n zero r w rely v e steps u h = elim h [ ]
  pulse_loop-Tracked zero (suc fuel) r w rely v e steps u h =
      let (q, w1, runs, went, v1) = shared_round zero fuel r w rely v e steps u in
      (
        1,
        w1,
        rw (runs, pulse_loop) refl,
        record { least = omega arith; most = omega arith; went = went; reason = inl refl },
      )
  pulse_loop-Tracked (suc n) (suc fuel) r w rely v e steps u h =
      let (q, w1, runs, went, v1) = shared_round (suc n) fuel r w rely v e steps u in
      let more : (suc n == 0) ≡ false = ground arith in
      elim (Bool-cases (any_stop r.motor_list w1.motors)) [
        | inl stop ↦ (
          1,
          w1,
          rw (runs, more, stop, pulse_loop) refl,
          record { least = omega arith; most = omega arith; went = went; reason = inr stop },
        )
        | inr go ↦
            let (j, w', rest, ended) =
              pulse_loop-Tracked n fuel (next_request q r) w1 rely v1 e (omega arith) (omega arith)
                (omega arith) in
            (
              suc j,
              w',
              rw (runs, more, go, pulse_loop) rest,
              record {
                least = omega arith;
                most = omega (arith, ended.most);
                went = Went-then j req r q w w1 w' (omega arith) (omega arith) went ended.went;
                reason = later ended.reason;
              },
            )
      ]
    where
      later : {j : ℕ} {b : Bool} → (j ≡ suc n) ⊎ (b ≡ true) → (suc j ≡ suc (suc n)) ⊎ (b ≡ true)
      later (inl a) = inl (ap suc a)
      later (inr a) = inr a
