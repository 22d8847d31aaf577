-- ===== src/Stepper/StopRely.antt =====
-- core/src/Stepper.c: calls of `stepper_stop`, at any round, are what the loop of `motor_pulser` allows for.
use cnc_robot_control.Common.{
  ℕ, ◌≡◌, ap, refl, List, Option, none, some, arith, ◌==◌, Bool-cases, Option-cases, inl, inr,
}
use cnc_robot_control.Stepper.Control.{stepper_stop}
use cnc_robot_control.Stepper.Pulser.{Others}
use cnc_robot_control.Stepper.Sharing.{Rely, written, flagged}
use cnc_robot_control.Stepper.World.{StepperReq, World, stepper_is_busy}

-- The world after a call of `stepper_stop`, up to where it blocks.
abbrev pub stopping : Option ℕ → World → World
stopping q w = elim (stepper_stop q w) [ none ↦ w | some (blocks, w') ↦ w' ]

-- In each round another thread may stop a motor.
abbrev pub stops : (ℕ → Option ℕ) → Others
stops which k w = stopping (which k) w

stopping-motors :
    (p : Option ℕ) (q : ℕ) (w : World)
    → (stopping p w).motors q ≡ flagged ((stopping p w).motors q).stop (w.motors q)
unfolding stepper_stop
stopping-motors none q w = refl
stopping-motors (some p) q w = ground arith

stopping-request :
    (p : Option ℕ) (req : ℕ) (r : StepperReq) (w : World)
    → w.requests req ≡ some r
    → (q : Option ℕ) × ((stopping p w).requests req ≡ some (record r { motor_waiting = q }))
unfolding stepper_stop
stopping-request none req r w e = (r.motor_waiting, e)
stopping-request (some p) req r w e = elim (Bool-cases (stepper_is_busy w p)) [
  | inr free ↦ (r.motor_waiting, ground (arith, e, free))
  | inl busy ↦ elim (Option-cases (w.motors p).current_req) [
    | inl c ↦ (r.motor_waiting, ground (arith, e, busy, c))
    | inr (x, c) ↦ elim (Bool-cases (x == req)) [
      | inl same ↦ (some p, ground (arith, e, busy, c, same))
      | inr other ↦ (r.motor_waiting, ground (arith, e, busy, c, other))
    ]
  ]
]

stopping-calls : (p : Option ℕ) (w : World) → (stopping p w).calls ≡ w.calls
unfolding stepper_stop
stopping-calls none w = refl
stopping-calls (some p) w = ground arith

pub stops-Rely :
    (which : ℕ → Option ℕ) (req : ℕ) (ps bulk : List ℕ) → Rely req ps bulk (stops which)
stops-Rely which req ps bulk = record {
  motors = λ k q w m. (((stops which k w).motors q).stop, stopping-motors (which k) q w);
  request = λ k r w e. stopping-request (which k) req r w e;
  lines = λ k w. ap (written bulk) (stopping-calls (which k) w);
}
