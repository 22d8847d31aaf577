-- ===== src/Control/HaltLaws.antt =====
-- control/src/control.c: what brings the loop of `main` to its end, and at what point.
use cnc_robot_control.Common.{
  ℕ, ◌≡◌, ◌∙◌, sym, refl, ap, Bool, true, false, List, [], ◌∷◌, ◌++◌, if◌then◌else◌, Bool-cases,
  inl, inr,
}
use cnc_robot_control.Axis.Double.{Double}
use cnc_robot_control.Control.EndLaws.{
  SameSockets, RoundKeeps, finished, main_round-keeps, cleanup-finished,
}
use cnc_robot_control.Control.Loop.{
  Select, select_failed, interrupted, selected, Round, next, in_read, undefined, Run, ended,
  in_select, stuck_read, no_meaning, halted, cleanup, main_round, after_round, main_loop,
}
use cnc_robot_control.Control.Program.{Control, Platform}
use cnc_robot_control.Stepper.World.{Env}

module _ {D : Type 0} (d : Double D) (env : Env) (p : Platform D) where
  loop-stopped :
      (ss : List Select) (c : Control D) (buff : List ℕ)
      → c.stop ≡ true
      → main_loop d env p ss c buff ≡ ended (cleanup c)
  unfolding main_loop
  loop-stopped [] c buff e = ap (λ b. if b then ended (cleanup c) else in_select c) e
  loop-stopped (s ∷ ss) c buff e =
      ap
        (λ b.
          if b
          then ended (cleanup c)
          else after_round (main_round d env p s c buff) (λ c' msg. main_loop d env p ss c' msg))
        e

  loop-goes :
      (s : Select) (ss : List Select) (c c' : Control D) (buff msg : List ℕ)
      → c.stop ≡ false
      → main_round d env p s c buff ≡ next c' msg
      → main_loop d env p (s ∷ ss) c buff ≡ main_loop d env p ss c' msg
  unfolding main_loop
  loop-goes s ss c c' buff msg e r =
      ap
        (λ b.
          if b
          then ended (cleanup c)
          else after_round (main_round d env p s c buff) (λ x m. main_loop d env p ss x m))
        e
      ∙ ap (λ x. after_round x (λ x m. main_loop d env p ss x m)) r

  -- A call of `select` that fails, that Ctrl-C interrupts, or that finds the emergency stop pressed.
  abbrev pub Stops : Control D → Select → Type 0
  Stops c select_failed = Unit
  Stops c interrupted = Unit
  Stops c (selected is_set) = is_set c.e_stop_fd ≡ true

  -- A program that waits in `select` is brought to its end.
  abbrev pub brought_down : Run D → Run D
  brought_down (in_select c) = ended (finished c)
  brought_down (ended c) = ended c
  brought_down stuck_read = stuck_read
  brought_down no_meaning = no_meaning

  main_round-halted :
      (s : Select) (c : Control D) (buff : List ℕ)
      → Stops c s
      → main_round d env p s c buff ≡ next (halted c) buff
  unfolding main_round
  main_round-halted select_failed c buff h = refl
  main_round-halted interrupted c buff h = refl
  main_round-halted (selected is_set) c buff h = rw h refl

  same-Stops : (s : Select) (c c' : Control D) → c'.e_stop_fd ≡ c.e_stop_fd → Stops c s → Stops c' s
  same-Stops select_failed c c' e h = tt
  same-Stops interrupted c c' e h = tt
  same-Stops (selected is_set) c c' e h = ap is_set e ∙ h

  after_round-down :
      (r : Round D) (c : Control D) (f g : Control D → List ℕ → Run D)
      → RoundKeeps c r
      → ((c' : Control D) (msg : List ℕ) → SameSockets c c' → f c' msg ≡ brought_down (g c' msg))
      → after_round r f ≡ brought_down (after_round r g)
  unfolding after_round
  after_round-down (next c' msg) c f g k h = h c' msg k
  after_round-down in_read c f g k h = refl
  after_round-down undefined c f g k h = refl

  choose-down :
      (b : Bool) (x y y' : Run D)
      → x ≡ brought_down x
      → y ≡ brought_down y'
      → (if b then x else y) ≡ brought_down (if b then x else y')
  choose-down true x y y' h k = h
  choose-down false x y y' h k = k

  -- Let `select` come back, behind any other rounds, with an error, for Ctrl-C or with the emergency stop
  -- pressed, whatever else is ready then. If the program was waiting in `select` after these rounds, it
  -- ends at once, as they have left it but for its flag, the closed sockets and the listener: no message
  -- is read and no motor is touched any more, and the calls of `select` that would follow are not made.
  -- If it had ended, was waiting in `read`, or was undefined, it is so still.
  pub main_loop-halts :
      (ss rest : List Select) (s : Select) (c : Control D) (buff : List ℕ)
      → Stops c s
      → main_loop d env p (ss ++ s ∷ rest) c buff ≡ brought_down (main_loop d env p ss c buff)
  unfolding main_loop
  main_loop-halts [] rest s c buff h = elim (Bool-cases c.stop) [
    | inl e ↦ loop-stopped (s ∷ rest) c buff e ∙ sym (ap brought_down (loop-stopped [] c buff e))
    | inr e ↦
        loop-goes s rest c (halted c) buff buff e (main_round-halted s c buff h)
        ∙ loop-stopped rest (halted c) buff refl
        ∙ ap (λ x. ended x) (cleanup-finished d env p c)
        ∙ sym (ap brought_down (ap (λ b. if b then ended (cleanup c) else in_select c) e))
  ]
  main_loop-halts (x ∷ ss) rest s c buff h =
      choose-down c.stop (ended (cleanup c))
        (after_round (main_round d env p x c buff)
          (λ c' msg. main_loop d env p (ss ++ s ∷ rest) c' msg))
        (after_round (main_round d env p x c buff) (λ c' msg. main_loop d env p ss c' msg)) refl
        (after_round-down (main_round d env p x c buff) c
          (λ c' msg. main_loop d env p (ss ++ s ∷ rest) c' msg)
          (λ c' msg. main_loop d env p ss c' msg) (main_round-keeps d env p x c buff)
          (λ c' msg k. main_loop-halts ss rest s c' msg (same-Stops s c c' k.3 h)))
