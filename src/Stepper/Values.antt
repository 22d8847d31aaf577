-- ===== src/Stepper/Values.antt =====
-- core/include/Stepper.h: the constants; core/src/Stepper.c: the checks of parameters.
use cnc_robot_control.Common.{ℕ, Bool, ◌||◌, ◌==◌}
use cnc_robot_control.Common.Int.{ℤ, pos, negsuc}

abbrev pub motor_list_size_max : ℕ
motor_list_size_max = 8

abbrev pub max_pps : ℕ
max_pps = 4160

-- FULL, HALF, QUARTER, EIGHT and SIXTEENTH.
unfoldable pub is_valid_microstep : ℕ → Bool
is_valid_microstep microstep =
    microstep == 1 || microstep == 2 || microstep == 4 || microstep == 8 || microstep == 16

-- DIRECTION_CLOCKWISE is 1, DIRECTION_COUNTERCLOCKWISE is 0.
unfoldable pub is_valid_direction_abs : ℕ → Bool
is_valid_direction_abs direction = direction == 1 || direction == 0

abbrev pub direction_invalid : ℕ
direction_invalid = 2

-- DIRECTION_POSITIVE and DIRECTION_NEGATIVE.
abbrev pub direction_positive : ℤ
direction_positive = pos 1

abbrev pub direction_negative : ℤ
direction_negative = negsuc 0

abbrev pub eq_ℤ : ℤ → ℤ → Bool
eq_ℤ (pos a) (pos b) = a == b
eq_ℤ (negsuc a) (negsuc b) = a == b
eq_ℤ a b = Bool.false

unfoldable pub is_valid_direction_rel : ℤ → Bool
is_valid_direction_rel direction =
    eq_ℤ direction direction_positive || eq_ℤ direction direction_negative

-- The results of functions that return an `int`.
abbrev pub success : ℤ
success = pos 0

abbrev pub failure : ℤ
failure = negsuc 0
