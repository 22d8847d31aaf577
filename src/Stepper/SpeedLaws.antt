-- ===== src/Stepper/SpeedLaws.antt =====
-- core/src/Stepper.c: what `stepper_set_speed_multiple` and the direction functions promise.
use native.Mathlib.Nat.{le-div_iff_mul-le, div-le_self, zero-add, suc-add, add-zero}
use cnc_robot_control.Common.{
  ℕ, suc, ◌+◌, ◌*◌, ◌/◌, ◌≤◌, ◌<◌, ◌≡◌, refl, Bool, true, false, List, [], ◌∷◌, Option, some, arith,
  ltb, ◌==◌, if◌then◌else◌, min, ◌||◌, ◌++◌, ◌∙◌, length, append-nil,
}
use cnc_robot_control.Stepper.Speed.{speed_loop, stepper_set_speed_multiple}
use cnc_robot_control.Stepper.Values.{success, failure, max_pps}
use cnc_robot_control.Stepper.World.{World, put, stepper_is_busy}
use cnc_robot_control.Time.Calc.{microsec_to_timespec}
use cnc_robot_control.Time.Laws.{normal, microsec_to_timespec_lem}

-- The half period is a positive number of microseconds below a second.
abbrev pub half_period_of : ℕ → ℕ
half_period_of pps = 500000 / min pps max_pps

half_period_bounds :
    (pps : ℕ) → 0 < pps → (120 ≤ half_period_of pps) × (half_period_of pps ≤ 500000)
half_period_bounds pps h =
    ((le-div_iff_mul-le (omega arith)).1 (omega arith), div-le_self 500000 (min pps max_pps))

-- One of the first motors of a list is busy, or none is.
abbrev pub member : ℕ → List ℕ → Bool
member q [] = false
member q (p ∷ ps) = p == q || member q ps

abbrev pub AllFree : List ℕ → World → Type 0
AllFree [] w = Unit
AllFree (p ∷ ps) w = (stepper_is_busy w p ≡ false) × AllFree ps w

abbrev pub pointers : List ℕ → List (Option ℕ)
pointers [] = []
pointers (p ∷ ps) = some p ∷ pointers ps

-- The world with a new half period for the listed motors.
abbrev pub retimed : ℕ → List ℕ → World → World
retimed h [] w = w
retimed h (p ∷ ps) w = retimed h ps (put p (record (w.motors p) { half_period = h }) w)

AllFree-put :
    (ps : List ℕ) (p h : ℕ) (w : World)
    → AllFree ps w
    → AllFree ps (put p (record (w.motors p) { half_period = h }) w)
AllFree-put [] p h w f = tt
AllFree-put (q ∷ ps) p h w f = (ground arith, AllFree-put ps p h w f.1)

-- The new half period reaches the listed motors, and nothing else changes.
pub motors-retimed :
    (h : ℕ) (ps : List ℕ) (w : World) (q : ℕ)
    → (retimed h ps w).motors q
      ≡ (if member q ps then record (w.motors q) { half_period = h } else w.motors q)
motors-retimed h [] w q = refl
motors-retimed h (p ∷ ps) w q =
    ground (arith, motors-retimed h ps (put p (record (w.motors p) { half_period = h }) w) q)

busy-retimed :
    (h : ℕ) (ps : List ℕ) (w : World) (q : ℕ)
    → stepper_is_busy (retimed h ps w) q ≡ stepper_is_busy w q
busy-retimed h ps w q = ground (arith, motors-retimed h ps w q)

speed_loop-append :
    (ps : List ℕ) (n : ℕ) (rest : List (Option ℕ)) (pps : ℕ) (w : World)
    → AllFree ps w
    → speed_loop (length ps + n) (pointers ps ++ rest) pps w
      ≡ speed_loop n rest pps (retimed (500000 / pps) ps w)
unfolding speed_loop
speed_loop-append [] n rest pps w f = rw zero-add
speed_loop-append (p ∷ ps) n rest pps w f =
    let w' = put p (record (w.motors p) { half_period = 500000 / pps }) w in
    rw suc-add
      (ground (arith, speed_loop-append ps n rest pps w' (AllFree-put ps p (500000 / pps) w f.1)))

abbrev capped : ℕ → ℕ
capped pps = if ltb max_pps pps then max_pps else pps

capped-min : (pps : ℕ) → 500000 / capped pps ≡ half_period_of pps
capped-min pps = ground arith

speed_loop-nil : (w : World) (pps : ℕ) → speed_loop 0 [] pps w ≡ some (success, w)
unfolding speed_loop
speed_loop-nil w pps = refl

speed_loop-stop :
    (tail : List (Option ℕ)) (n p pps : ℕ) (w : World)
    → stepper_is_busy w p ≡ true
    → speed_loop (suc n) (some p ∷ tail) pps w ≡ some (failure, w)
unfolding speed_loop
speed_loop-stop tail n p pps w b = ground arith

-- For a positive speed and one to eight motors, none of them busy, the call succeeds: the listed
-- motors get a half period of 500000 microseconds divided by the speed, limited to `MAX_PPS`, which is
-- between 120 and 500000, and nothing else changes.
pub stepper_set_speed_multiple-success :
    (ps : List ℕ) (pps : ℕ) (w : World)
    → 0 < pps
    → 0 < length ps
    → length ps ≤ 8
    → AllFree ps w
    → (stepper_set_speed_multiple (some (pointers ps)) pps (length ps) w
        ≡ some (success, retimed (half_period_of pps) ps w))
      × (120 ≤ half_period_of pps)
      × (half_period_of pps ≤ 500000)
unfolding stepper_set_speed_multiple
stepper_set_speed_multiple-success ps pps w p l u f =
    let loop = speed_loop-append ps 0 [] (capped pps) w f in
    let loop' : speed_loop (length ps) (pointers ps) (capped pps) w
        ≡ some (success, retimed (500000 / capped pps) ps w) =
      rw (add-zero, append-nil) at
        (loop ∙ speed_loop-nil (retimed (500000 / capped pps) ps w) (capped pps)) in
    let (lo, hi) = half_period_bounds pps p in
    (rw (← capped-min pps) (ground (arith, loop')), lo, hi)

pub stepper_set_speed_multiple-stopped :
    (ps : List ℕ) (tail : List (Option ℕ)) (n p pps : ℕ) (w : World)
    → 0 < pps
    → length ps + suc n ≤ 8
    → AllFree ps w
    → stepper_is_busy w p ≡ true
    → stepper_set_speed_multiple (some (pointers ps ++ (some p ∷ tail))) pps (length ps + suc n) w
      ≡ some (failure, retimed (half_period_of pps) ps w)
unfolding stepper_set_speed_multiple
stepper_set_speed_multiple-stopped ps tail n p pps w h u f b =
    let loop = speed_loop-append ps (suc n) (some p ∷ tail) (capped pps) w f in
    let after = retimed (half_period_of pps) ps w in
    let stop =
      speed_loop-stop tail n p (capped pps) after (busy-retimed (half_period_of pps) ps w p ∙ b) in
    ground (arith, loop, capped-min pps, stop)

-- A busy motor stops the call with an error, but the motors listed before it have the new speed.
pub stepper_set_speed_multiple-busy :
    (ps rest : List ℕ) (p pps : ℕ) (w : World)
    → 0 < pps
    → length ps + suc (length rest) ≤ 8
    → AllFree ps w
    → stepper_is_busy w p ≡ true
    → stepper_set_speed_multiple
        (some (pointers ps ++ (some p ∷ pointers rest)))
        pps
        (length ps + suc (length rest))
        w
      ≡ some (failure, retimed (half_period_of pps) ps w)
stepper_set_speed_multiple-busy ps rest p pps w h u f b =
    stepper_set_speed_multiple-stopped ps (pointers rest) (length rest) p pps w h u f b

-- The time that the handler thread sleeps between the edges of a pulse is a normal one, of the half
-- period, for every half period that a speed gives.
pub pulse_duration_normal :
    (pps : ℕ)
    → 0 < pps
    → microsec_to_timespec (half_period_of pps) ≡ normal (half_period_of pps * 1000)
pulse_duration_normal pps h =
    microsec_to_timespec_lem (half_period_of pps) (omega (arith, half_period_bounds pps h))

speed_loop-done :
    (rest : List (Option ℕ)) (pps : ℕ) (w : World) → speed_loop 0 rest pps w ≡ some (success, w)
unfolding speed_loop
speed_loop-done rest pps w = refl

-- The entries behind the listed motors are not looked at.
pub stepper_set_speed_multiple-rest :
    (ps : List ℕ) (rest : List (Option ℕ)) (pps : ℕ) (w : World)
    → 0 < pps
    → 0 < length ps
    → length ps ≤ 8
    → AllFree ps w
    → stepper_set_speed_multiple (some (pointers ps ++ rest)) pps (length ps) w
      ≡ some (success, retimed (half_period_of pps) ps w)
unfolding stepper_set_speed_multiple
stepper_set_speed_multiple-rest ps rest pps w p l u f =
    let loop = speed_loop-append ps 0 rest (capped pps) w f in
    let loop' : speed_loop (length ps) (pointers ps ++ rest) (capped pps) w
        ≡ some (success, retimed (500000 / capped pps) ps w) =
      rw add-zero at
        (loop ∙ speed_loop-done rest (capped pps) (retimed (500000 / capped pps) ps w)) in
    rw (← capped-min pps) (ground (arith, loop'))
