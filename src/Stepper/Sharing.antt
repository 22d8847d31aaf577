-- ===== src/Stepper/Sharing.antt =====
-- core/src/Stepper.c: what other threads may do to the motors of a request, and what is seen of its pulses.
use cnc_robot_control.Common.{
  ℕ, zero, suc, ◌-◌, ◌≤◌, ◌<◌, ◌≡◌, ◌⊎◌, ap, refl, inl, inr, Bool, true, false, ◌&&◌, List, [], ◌∷◌,
  ◌++◌, Option, some, arith, ◌==◌, if◌then◌else◌, Bool-cases,
}
use cnc_robot_control.Stepper.CountLaws.{count, any_stop}
use cnc_robot_control.Stepper.PulseLaws.{pulses}
use cnc_robot_control.Stepper.Pulser.{Others}
use cnc_robot_control.Stepper.SpeedLaws.{member}
use cnc_robot_control.Stepper.World.{
  Stepper, StepperReq, World, Call, write_bulk, set_value, request_bulk, release_bulk, nanosleep,
  signal_req, signal_wait,
}
use cnc_robot_control.Time.Calc.{Timespec}

abbrev same_lines : List ℕ → List ℕ → Bool
same_lines [] [] = true
same_lines (x ∷ xs) (y ∷ ys) = (x == y) && same_lines xs ys
same_lines _ _ = false

same_lines_refl : (xs : List ℕ) → same_lines xs xs ≡ true
same_lines_refl [] = refl
same_lines_refl (x ∷ xs) = ground (arith, same_lines_refl xs)

-- The values that the calls have written to a bulk of lines, one after the other.
abbrev pub written : List ℕ → List Call → List Bool
written bulk [] = []
written bulk (write_bulk b v ∷ cs) =
    if same_lines bulk b then v ∷ written bulk cs else written bulk cs
written bulk (set_value line v ∷ cs) = written bulk cs
written bulk (request_bulk b ∷ cs) = written bulk cs
written bulk (release_bulk b ∷ cs) = written bulk cs
written bulk (nanosleep t ∷ cs) = written bulk cs
written bulk (signal_req q ∷ cs) = written bulk cs
written bulk (signal_wait q ∷ cs) = written bulk cs

-- `n` rising and falling edges.
abbrev pub edges : ℕ → List Bool
edges zero = []
edges (suc n) = true ∷ false ∷ edges n

abbrev pub flagged : Bool → Stepper → Stepper
flagged b s = record s { stop = b }

-- What other threads may do while the request `req` is served: set and clear the stop flags of its motors
-- and say who waits for it. They neither touch these motors otherwise nor write to their lines; all
-- other motors, requests and lines are theirs.
pub record Rely (req : ℕ) (ps bulk : List ℕ) (others : Others) : Type 0 where
  pub motors :
      (k q : ℕ) (w : World)
      → member q ps ≡ true
      → (b : Bool) × ((others k w).motors q ≡ flagged b (w.motors q))
  pub request :
      (k : ℕ) (r : StepperReq) (w : World)
      → w.requests req ≡ some r
      → (q : Option ℕ) × ((others k w).requests req ≡ some (record r { motor_waiting = q }))
  pub lines : (k : ℕ) (w : World) → written bulk (others k w).calls ≡ written bulk w.calls

-- The motors of the request have made `j` steps more, and their lines have seen as many pulses.
pub record Went (j req : ℕ) (r : StepperReq) (w w' : World) : Type 0 where
  pub counters :
      (q : ℕ)
      → member q r.motor_list ≡ true
      → (b : Bool) × (w'.motors q ≡ flagged b (count j (w.motors q)))
  pub sent : written r.pin_bulk w'.calls ≡ written r.pin_bulk w.calls ++ edges j
  pub left :
      (q : Option ℕ) × (w'.requests req
        ≡ some (record r { motor_waiting = q; req_steps = r.req_steps - j }))

-- The loop has ended after `j` of `n` steps, and before the last only if a motor is asked to stop.
pub record Tracked (j n req : ℕ) (r : StepperReq) (w w' : World) : Type 0 where
  pub least : 0 < j
  pub most : j ≤ n
  pub went : Went j req r w w'
  pub reason : (j ≡ n) ⊎ (any_stop r.motor_list w'.motors ≡ true)

pub written-append :
    (bulk : List ℕ) (cs ds : List Call)
    → written bulk (cs ++ ds) ≡ written bulk cs ++ written bulk ds
written-append bulk [] ds = refl
written-append bulk (write_bulk b v ∷ cs) ds = elim (Bool-cases (same_lines bulk b)) [
  | inl e ↦ rw e (ap (λ l. v ∷ l) (written-append bulk cs ds))
  | inr e ↦ rw e (written-append bulk cs ds)
]
written-append bulk (set_value line v ∷ cs) ds = written-append bulk cs ds
written-append bulk (request_bulk b ∷ cs) ds = written-append bulk cs ds
written-append bulk (release_bulk b ∷ cs) ds = written-append bulk cs ds
written-append bulk (nanosleep t ∷ cs) ds = written-append bulk cs ds
written-append bulk (signal_req q ∷ cs) ds = written-append bulk cs ds
written-append bulk (signal_wait q ∷ cs) ds = written-append bulk cs ds

pub written-pulses :
    (bulk : List ℕ) (t : Timespec) → written bulk (pulses 1 bulk t) ≡ true ∷ false ∷ []
written-pulses bulk t = rw (same_lines_refl bulk) refl

pub edges-append : (j : ℕ) (vs : List Bool) → edges 1 ++ (edges j ++ vs) ≡ edges (suc j) ++ vs
edges-append j vs = refl
