-- ===== src/Config/Bound/Listing.antt =====
-- control/src/config.c: the room that the loop over a list of motors takes.
use cnc_robot_control.Common.{
  ℕ, suc, ◌+◌, ◌-◌, ◌≤◌, ◌≡◌, inl, inr, refl, Bool, true, false, [], ◌∷◌, ◌++◌, Option, none, some,
  arith, ltb, ◌==◌, if◌then◌else◌, Option-cases, Bool-cases, length, get_elem?, set,
  get_elem?-set_ne,
}
use cnc_robot_control.Common.Int.{◌>>=◌}
use cnc_robot_control.Config.Bound.{names}
use cnc_robot_control.Config.Chars.{Bytes}
use cnc_robot_control.Config.MotorList.{add_motor, set_listed, list_loop}
use cnc_robot_control.Config.Room.{HasRoom, RoomAfter, RoomNext, HasRoom-mono, set_listed-RoomAfter}
use cnc_robot_control.Config.Scan.{is_value_char, ends_value}
use cnc_robot_control.Config.Setters.{fail}
use cnc_robot_control.Config.Types.{State, Message, Machine, param_max_len}

names-one : (bs : Bytes) → 1 ≤ names bs
names-one [] = omega arith
names-one (c ∷ cs) = ground (arith, names-one cs)

after_comma :
    (cs : Bytes) (i n k : ℕ) (r : Option (Machine × Bool))
    → RoomAfter n r
    → k ≤ n
    → ((m : Machine) → HasRoom n m → RoomNext k (list_loop cs [] i m))
    → RoomNext k (r >>= λ x. if x.1 then some x.0 else list_loop cs [] i x.0)
after_comma cs i n k none a h ih = absurd a
after_comma cs i n k (some (m, true)) a h ih = HasRoom-mono k n m h a
after_comma cs i n k (some (m, false)) a h ih = ih m a

-- What the loop does with a name that is its last.
last_name : (k : ℕ) (r : Option (Machine × Bool)) → RoomAfter k r → RoomNext k (r >>= λ x. some x.0)
last_name k none a = a
last_name k (some (m, b)) a = a

end_of_buffer :
    (k : ℕ) (r : Option (Machine × Bool)) (after : Machine → Machine)
    → ((m : Machine) → HasRoom k m → HasRoom k (after m))
    → RoomAfter k r
    → RoomNext k (r >>= λ x. if x.1 then some x.0 else some (after x.0))
end_of_buffer k none after h a = a
end_of_buffer k (some (m, true)) after h a = a
end_of_buffer k (some (m, false)) after h a = h m a

either :
    (k : ℕ) (b : Bool) (x y : Option Machine)
    → (b ≡ true → RoomNext k x)
    → (b ≡ false → RoomNext k y)
    → RoomNext k (if b then x else y)
either k true x y h h' = h refl
either k false x y h h' = h' refl

-- The loop takes the room of the names that it reads, and no more.
pub list_loop-RoomNext :
    (bs text : Bytes) (i k : ℕ) (m : Machine)
    → HasRoom (k + names bs) m
    → RoomNext k (list_loop bs text i m)
unfolding list_loop
list_loop-RoomNext [] text i k m h =
    let here = record m { value = text; offset = i + 1 } in
    end_of_buffer k (set_listed text here)
      (λ m'. fail Message.abrupt_end (record m' { value = []; offset = i + 2 })) (λ m' a. a)
      (set_listed-RoomAfter text k here (HasRoom-mono (suc k) (k + 1) m (omega arith) h))
list_loop-RoomNext (c ∷ cs) text i k m h =
    let here = record m { value = text; offset = i + 1 } in
    let room = λ (n : ℕ) (l : n ≤ k + names (c ∷ cs)). HasRoom-mono n (k + names (c ∷ cs)) m l h in
    let one = names-one (c ∷ cs) in
    either k (is_value_char c) _ _
      (λ e.
        let more = list_loop cs (text ++ c ∷ []) (i + 1) m in
        either k (ltb (length text) (param_max_len - 1)) more
          (some (fail Message.value_too_long here))
          (λ l.
            list_loop-RoomNext cs (text ++ c ∷ []) (i + 1) k m
              (room (k + names cs) (ground (arith, e))))
          (λ l. room k (omega arith)))
      (λ e.
        either k (c == b',') _ _
          (λ e'.
            after_comma cs (i + 1) (k + names cs) k (set_listed text here)
              (set_listed-RoomAfter text (k + names cs) here
                (room (suc (k + names cs)) (ground (arith, e, e'))))
              (omega arith) (λ m'. list_loop-RoomNext cs [] (i + 1) k m'))
          (λ e'.
            let last = record here { state = State.cleanup } in
            either k (ends_value c) _ (some (fail (Message.bad_value_char c) here))
              (λ d.
                last_name k (set_listed text last)
                  (set_listed-RoomAfter text k last (room (suc k) (omega arith))))
              (λ d. room k (omega arith))))

-- An entry behind the open one stays as it is.
module _ (at : ℕ) where
  abbrev pub SameAt : Machine → Option Machine → Type 0
  SameAt m none = Unit
  SameAt m (some m') =
      (m'.axis_list_len ≡ m.axis_list_len) × (get_elem? m'.axis_list at ≡ get_elem? m.axis_list at)

  abbrev ListedAt : Machine → Option (Machine × Bool) → Type 0
  ListedAt m none = Unit
  ListedAt m (some (m', b)) =
      (m'.axis_list_len ≡ m.axis_list_len) × (get_elem? m'.axis_list at ≡ get_elem? m.axis_list at)

  add_motor-SameAt : (node : ℕ) (m : Machine) → m.axis_list_len ≤ at → SameAt m (add_motor node m)
  unfolding add_motor
  add_motor-SameAt node m h = elim (Option-cases (get_elem? m.axis_list (m.axis_list_len - 1))) [
    | inl e ↦ ground arith
    | inr (x, e) ↦
        let put = record x { motors = set x.motors x.count (some node); count = x.count + 1 } in
        elim (Bool-cases (m.axis_list_len == 0)) [
          | inl z ↦ rw (z, add_motor) tt
          | inr p ↦ ground (
            arith,
            get_elem?-set_ne m.axis_list {i = m.axis_list_len - 1} {j = at} put
                (λ q. absurd (ground (arith, h, p, q))),
          )
        ]
  ]

  set_listed-ListedAt :
      (text : Bytes) (m : Machine) → m.axis_list_len ≤ at → ListedAt m (set_listed text m)
  unfolding set_listed
  set_listed-ListedAt [] m h = (refl, refl)
  set_listed-ListedAt (c ∷ s) m h = grind (arith, add_motor-SameAt)

  pub list_loop-SameAt :
      (bs text : Bytes) (i : ℕ) (m : Machine)
      → m.axis_list_len ≤ at
      → SameAt m (list_loop bs text i m)
  unfolding list_loop
  list_loop-SameAt [] text i m h =
      ground (arith, set_listed-ListedAt text (record m { value = text; offset = i + 1 }) h)
  list_loop-SameAt (c ∷ cs) text i m h =
      let here = record m { value = text; offset = i + 1 } in
      let more = list_loop-SameAt cs (text ++ c ∷ []) (i + 1) m h in
      let last = set_listed-ListedAt text (record here { state = State.cleanup }) h in
      elim (Option-cases (set_listed text here)) [
        | inl e ↦ ground (arith, more, last)
        | inr (r, e) ↦ ground (
          arith,
          more,
          last,
          rw e at (set_listed-ListedAt text here h),
          list_loop-SameAt cs [] (i + 1) r.0,
        )
      ]
