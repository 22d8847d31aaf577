-- ===== src/Time/Print.antt =====
-- core/src/Time.c: `print_time`, `snprint_time` and `time_to_double`. What `printf` makes of the formats
-- `%ld` and `%09ld` is written out; the operations of `double` are a parameter.
use cnc_robot_control.Common.{
  ℕ, zero, suc, ◌+◌, ◌-◌, ◌/◌, ◌%◌, [], ◌∷◌, ◌++◌, Option, none, some, leb, ◌==◌, if◌then◌else◌,
  length, take, drop, replicate,
}
use cnc_robot_control.Common.Int.{ℤ, pos, negsuc}
use cnc_robot_control.Axis.Double.{Double}
use cnc_robot_control.Config.Chars.{Bytes}
use cnc_robot_control.Time.Calc.{Timespec, nano_in_second}

-- The last `k` decimal digits of a number.
unfoldable pub digits : ℕ → ℕ → Bytes
digits zero n = []
digits (suc k) n = digits k (n / 10) ++ (b'0' + n % 10) ∷ []

-- Without the zeros in front of the last digit.
unfoldable pub strip : Bytes → Bytes
strip [] = []
strip (c ∷ []) = c ∷ []
strip (c ∷ d ∷ s) = if c == b'0' then strip (d ∷ s) else c ∷ d ∷ s

-- The absolute value of a `long` has nineteen digits at most.
abbrev pub long_digits : ℕ
long_digits = 19

unfoldable pub decimal_of : ℕ → Bytes
unfolding digits strip
decimal_of n = strip (digits long_digits n)

-- `%0<width>ld`: zeros between the sign and the digits, as many as the width asks for; `%ld` is width 0.
abbrev pub padded : ℕ → Bytes → Bytes
padded width s = replicate (width - length s) b'0' ++ s

unfoldable pub format_long : ℕ → ℤ → Bytes
format_long width (pos n) = padded width (decimal_of n)
format_long width (negsuc n) = b'-' ∷ padded (width - 1) (decimal_of (suc n))

-- What `print_time` writes to the standard output.
unfoldable pub print_time : Timespec → Bytes
print_time t = format_long 0 t.tv_sec ++ (b'.' ∷ format_long 9 t.tv_nsec)

-- The memory at `buf` afterwards; `none` if there is less of it than is written.
unfoldable pub snprint_time : Timespec → Bytes → ℕ → Option Bytes
snprint_time t buf zero = some buf
snprint_time t buf (suc n) =
    let text = take n (print_time t) ++ 0 ∷ [] in
    if leb (length text) (length buf) then some (text ++ drop (length text) buf) else none

unfoldable pub time_to_double : {D : Type 0} → Double D → Timespec → D
time_to_double d t =
    d.add (d.div (d.of_int t.tv_nsec) (d.of_uint nano_in_second)) (d.of_int t.tv_sec)
