-- ===== src/Axis/ReturnLaws.antt =====
-- core/src/Axis.c: moving an axis there and back, and the speed of an axis.
use mathlib.Core.Path.{subst}
use cnc_robot_control.Common.{
  ℕ, ◌+◌, ◌≡◌, ◌∙◌, refl, true, false, List, [], ◌∷◌, none, arith, ◌==◌, Bool-cases, inl, inr,
  ==_iff,
}
use cnc_robot_control.Common.Int.{ℤ, pos, negsuc, pos_part, neg_part, sub_ℕ}
use cnc_robot_control.Axis.DirectionLaws.{facing, AllTurnable, IsTurnable}
use cnc_robot_control.Stepper.CountLaws.{AllRange, HasRange, ==-refl, any_stop, count}
use cnc_robot_control.Stepper.MoveLaws.{Moved}
use cnc_robot_control.Stepper.Direction.{opposite}
use cnc_robot_control.Stepper.SpeedLaws.{member}
use cnc_robot_control.Stepper.Values.{direction_negative}
use cnc_robot_control.Stepper.World.{Stepper, World}

-- The listed motors face the positive direction of their axis.
abbrev pub AllPositive : List ℕ → World → Type 0
AllPositive ps w =
    (q : ℕ) → member q ps ≡ true → (w.motors q).curr_direction ≡ (w.motors q).pos_direction

-- What a move leaves of a motor, up to its flag for the next request.
unfoldable pub MovedLike : ℕ → Stepper → Stepper → Type 0
MovedLike n s s' =
    (s'.steps ≡ (count n s).steps)
    × (s'.stop ≡ s.stop)
    × (s'.shared_mutex ≡ none)
    × (s'.microsteps_per_rotation ≡ s.microsteps_per_rotation)
    × (s'.pos_direction ≡ s.pos_direction)
    × (s'.curr_direction ≡ s.curr_direction)

pub Moved-MovedLike :
    (n p q : ℕ) (ps : List ℕ) (w w' : World)
    → Moved n p ps w w'
    → member q (p ∷ ps) ≡ true
    → MovedLike n (w.motors q) (w'.motors q)
unfolding MovedLike
Moved-MovedLike n p q ps w w' m e = ground (arith, m.first, m.listed q)

opposite-ne : (x : ℕ) → (opposite x == x) ≡ false
opposite-ne x = ground arith

back_and_forth :
    (z : ℤ) (k : ℕ)
    → sub_ℕ
        (pos_part (sub_ℕ (pos_part z + k) (neg_part z)))
        (neg_part (sub_ℕ (pos_part z + k) (neg_part z)) + k)
      ≡ z
back_and_forth (pos x) k = ground arith
back_and_forth (negsuc x) k = ground arith

pub MovedLike-back :
    (n : ℕ) (s s2 s3 : Stepper)
    → s.curr_direction ≡ s.pos_direction
    → MovedLike n s s2
    → MovedLike n (facing direction_negative s2) s3
    → s3.steps ≡ s.steps
unfolding MovedLike
MovedLike-back n s s2 s3 e (m, _, _, _, k, c) m' =
    m'.0
    ∙ rw (opposite-ne s2.pos_direction)
        (rw (m, e) (rw (==-refl s.pos_direction) (back_and_forth s.steps n)))

AllTurnable-each :
    (ps : List ℕ) (w : World)
    → ((q : ℕ) → member q ps ≡ true → IsTurnable (w.motors q))
    → AllTurnable ps w
AllTurnable-each [] w h = tt
AllTurnable-each (p ∷ ps) w h =
    (h p (rw (==-refl p) refl), AllTurnable-each ps w (λ q e. h q (ground (arith, e))))

each-AllTurnable :
    (ps : List ℕ) (w : World) (q : ℕ)
    → AllTurnable ps w
    → member q ps ≡ true
    → IsTurnable (w.motors q)
each-AllTurnable [] w q t e = ground (arith, e)
each-AllTurnable (p ∷ ps) w q (t, rest) e = elim (Bool-cases (p == q)) [
  | inl same ↦ subst (λ x. IsTurnable (w.motors x)) ((==_iff p q).0 same) t
  | inr other ↦ each-AllTurnable ps w q rest (ground arith)
]

any_stop-listed :
    (ps : List ℕ) (f g : ℕ → Stepper)
    → ((q : ℕ) → member q ps ≡ true → (f q).stop ≡ (g q).stop)
    → any_stop ps f ≡ any_stop ps g
any_stop-listed [] f g h = refl
any_stop-listed (p ∷ ps) f g h =
    rw (h p (rw (==-refl p) refl), any_stop-listed ps f g (λ q e. h q (ground (arith, e)))) refl

HasRange-advanced : (n k : ℕ) (s : Stepper) → HasRange (n + k) s → HasRange k (count n s)
HasRange-advanced n k s h = ground arith

-- The motors after a move are as ready for the next one as they were for it.
module _ (n p : ℕ) (ps : List ℕ) (w w' : World) (m : Moved n p ps w w') where
  pub Moved-AllTurnable : AllTurnable (p ∷ ps) w → AllTurnable (p ∷ ps) w'
  unfolding MovedLike
  Moved-AllTurnable t = AllTurnable-each (p ∷ ps) w' (λ q e.
      let (_, _, f, _, k, _) = Moved-MovedLike n p q ps w w' m e in
      (f, rw k (each-AllTurnable (p ∷ ps) w q t e).1))

  pub Moved-any_stop : any_stop (p ∷ ps) w'.motors ≡ any_stop (p ∷ ps) w.motors
  unfolding MovedLike
  Moved-any_stop =
      any_stop-listed (p ∷ ps) w'.motors w.motors (λ q e. (Moved-MovedLike n p q ps w w' m e).1)

  pub Moved-AllRange : (k : ℕ) → AllRange (n + k) (p ∷ ps) w.motors → AllRange k (p ∷ ps) w'.motors
  unfolding MovedLike
  Moved-AllRange k r q e =
      rw ((Moved-MovedLike n p q ps w w' m e).0) (HasRange-advanced n k (w.motors q) (r q e))
