-- ===== src/Stepper/CountLaws.antt =====
-- core/src/Stepper.c: the step counters over the pulses of `motor_pulser`.
use cnc_robot_control.Common.{
  ℕ, suc, ◌+◌, ◌^◌, ◌≤◌, ◌<◌, ◌≡◌, ◌≢◌, refl, Bool, true, false, ◌||◌, List, [], ◌∷◌, some, arith,
  ◌==◌, if◌then◌else◌, Bool-cases, inl, inr,
}
use cnc_robot_control.Common.Int.{ℤ, pos_part, neg_part, sub_ℕ}
use cnc_robot_control.Stepper.Pulser.{next_steps, count_loop}
use cnc_robot_control.Stepper.SpeedLaws.{member}
use cnc_robot_control.Stepper.World.{Stepper, World, put}

-- The counter after `k` pulses: up in the positive direction, down in the other.
abbrev pub advanced : Stepper → ℕ → ℤ
advanced s k =
    if s.curr_direction == s.pos_direction
    then sub_ℕ (pos_part s.steps + k) (neg_part s.steps)
    else sub_ℕ (pos_part s.steps) (neg_part s.steps + k)

-- The counter is `k` steps away from the ends of an `int`.
abbrev pub HasRange : ℕ → Stepper → Type 0
HasRange k s = (neg_part s.steps + k ≤ 2 ^ 31) × (pos_part s.steps + k < 2 ^ 31)

pub ==-refl : (p : ℕ) → (p == p) ≡ true
==-refl p = ground arith

next_steps-advanced : (s : Stepper) → HasRange 1 s → next_steps s ≡ some (advanced s 1)
unfolding next_steps
next_steps-advanced s h = ground arith

abbrev pub count : ℕ → Stepper → Stepper
count k s = record s { steps = advanced s k }

pub count-count : (k : ℕ) (s : Stepper) → count k (count 1 s) ≡ count (suc k) s
count-count k s = ground arith

-- No motor stands in the list twice.
abbrev pub Distinct : List ℕ → Type 0
Distinct [] = Unit
Distinct (p ∷ ps) = (member p ps ≡ false) × Distinct ps

abbrev pub AllRange : ℕ → List ℕ → (ℕ → Stepper) → Type 0
AllRange k ps motors = (q : ℕ) → member q ps ≡ true → HasRange k (motors q)

-- One of the listed motors is asked to stop.
abbrev pub any_stop : List ℕ → (ℕ → Stepper) → Bool
any_stop [] motors = false
any_stop (p ∷ ps) motors = (motors p).stop || any_stop ps motors

-- The world after one pulse of every listed motor.
abbrev pub counted_one : List ℕ → World → World
counted_one [] w = w
counted_one (p ∷ ps) w = counted_one ps (put p (count 1 (w.motors p)) w)

pub not-member : (p q : ℕ) (ps : List ℕ) → member p ps ≡ false → member q ps ≡ true → p ≢ q
not-member p q ps d e f = let d' : member q ps ≡ false = rw f at d in cc

AllRange-put :
    (k : ℕ) (ps : List ℕ) (p : ℕ) (s : Stepper) (w : World)
    → member p ps ≡ false
    → AllRange k (p ∷ ps) w.motors
    → AllRange k ps (put p s w).motors
AllRange-put k ps p s w d h q e = elim (Bool-cases (p == q)) [
  | inl same ↦ absurd (not-member p q ps d e (ground arith))
  | inr other ↦ rw other (h q (rw (other, e)))
]

any_stop-put :
    (ps : List ℕ) (p : ℕ) (s : Stepper) (w : World)
    → s.stop ≡ (w.motors p).stop
    → any_stop ps (put p s w).motors ≡ any_stop ps w.motors
any_stop-put [] p s w e = refl
any_stop-put (q ∷ ps) p s w e = ground (arith, any_stop-put ps p s w e)

pub count_loop-counted_one :
    (ps : List ℕ) (stop : Bool) (w : World)
    → Distinct ps
    → AllRange 1 ps w.motors
    → count_loop ps stop w ≡ some (stop || any_stop ps w.motors, counted_one ps w)
unfolding count_loop
count_loop-counted_one [] stop w d h = ground arith
count_loop-counted_one (p ∷ ps) stop w d h =
    let s = count 1 (w.motors p) in
    ground (
      arith,
      next_steps-advanced (w.motors p) (h p (rw (==-refl p))),
      any_stop-put ps p s w refl,
      count_loop-counted_one ps (stop || (w.motors p).stop) (put p s w) d.1
          (AllRange-put 1 ps p s w d.0 h),
    )

-- A pulse counts once for every listed motor and leaves the others alone.
pub motors-counted_one :
    (ps : List ℕ) (w : World) (q : ℕ)
    → Distinct ps
    → (counted_one ps w).motors q ≡ (if member q ps then count 1 (w.motors q) else w.motors q)
motors-counted_one [] w q d = refl
motors-counted_one (p ∷ ps) w q d =
    let ih = motors-counted_one ps (put p (count 1 (w.motors p)) w) q d.1 in
    elim (Bool-cases (p == q)) [
      | inl same ↦ ground (arith, ih, d.0)
      | inr other ↦ ground (arith, ih)
    ]

-- All but the motors stays as it was.
pub rest-counted_one :
    (ps : List ℕ) (w : World)
    → ((counted_one ps w).requests ≡ w.requests)
      × ((counted_one ps w).calls ≡ w.calls)
      × ((counted_one ps w).next_req ≡ w.next_req)
rest-counted_one [] w = (refl, refl, refl)
rest-counted_one (p ∷ ps) w = rest-counted_one ps (put p (count 1 (w.motors p)) w)

-- A counter with room for more steps has it after a pulse.
HasRange-count : (k : ℕ) (s : Stepper) → HasRange (suc k) s → HasRange k (count 1 s)
HasRange-count k s h = ground arith

pub AllRange-counted_one :
    (k : ℕ) (ps : List ℕ) (w : World)
    → Distinct ps
    → AllRange (suc k) ps w.motors
    → AllRange k ps (counted_one ps w).motors
AllRange-counted_one k ps w d h q e =
    rw (motors-counted_one ps w q d, e) (HasRange-count k (w.motors q) (h q e))

pub AllRange-le :
    (j k : ℕ) (ps : List ℕ) (motors : ℕ → Stepper)
    → j ≤ k
    → AllRange k ps motors
    → AllRange j ps motors
AllRange-le j k ps motors l h q e = let (a, b) = h q e in (omega arith, omega arith)
