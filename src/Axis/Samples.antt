-- ===== src/Axis/Samples.antt =====
-- An axis of two motors on which core/src/Axis.c is tried, with whole numbers for `double`, on which the
-- operations are exact as far as they are used.
use cnc_robot_control.Common.{◌+◌, ◌*◌, ◌/◌, refl, not, ◌&&◌, [], ◌∷◌, none, some, if◌then◌else◌}
use cnc_robot_control.Common.Int.{ℤ, pos, pos_part, neg_part, sub_ℕ, ltb_ℤ}
use cnc_robot_control.Axis.DirectionLaws.{AllTurnable}
use cnc_robot_control.Axis.Double.{Double}
use cnc_robot_control.Axis.MotionLaws.{Obliging}
use cnc_robot_control.Axis.Object.{Axis, axis_of}
use cnc_robot_control.Stepper.Samples.{granting, free_world}
use cnc_robot_control.Stepper.Values.{is_valid_direction_abs}

abbrev pub scaled : ℤ → ℤ → ℤ
scaled a b =
    sub_ℕ (pos_part a * pos_part b + neg_part a * neg_part b)
      (pos_part a * neg_part b + neg_part a * pos_part b)

abbrev pub whole : Double ℤ
whole = record {
  zero_double = pos 0;
  nan = pos 0;
  of_uint = λ n. pos n;
  of_int = λ z. z;
  add = λ a b. sub_ℕ (pos_part a + pos_part b) (neg_part a + neg_part b);
  mul = λ a b. scaled a b;
  div = λ a b. sub_ℕ (pos_part a / pos_part b) (neg_part a / pos_part b);
  negate = λ a. sub_ℕ (neg_part a) (pos_part a);
  eq = λ a b. not (ltb_ℤ a b) && not (ltb_ℤ b a);
  lt = λ a b. ltb_ℤ a b;
  le = λ a b. not (ltb_ℤ b a);
  to_uint = λ a. if ltb_ℤ a (pos 0) then none else some (pos_part a);
}

-- Motors 1 and 2, 1600 millimetres in a rotation of 3200 steps.
abbrev pub axis_12 : Axis ℤ
axis_12 = axis_of whole (1 ∷ 2 ∷ []) 1600

pub granting-Obliging : Obliging granting
granting-Obliging = record {
  sets = λ w line value. refl;
  blocks = λ w. refl;
  bulks = λ w bulk. refl;
  mutexes = λ w. refl;
  inits = λ w. refl;
}

pub free-AllTurnable : AllTurnable (1 ∷ 2 ∷ []) free_world
unfolding is_valid_direction_abs
free-AllTurnable = ((refl, refl), ((refl, refl), tt))
