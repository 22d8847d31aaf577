-- ===== src/Time/Tests.antt =====
-- core/src/Time.c at concrete times.
use cnc_robot_control.Common.{ℕ, ◌≡◌, refl, some, arith, replicate}
use cnc_robot_control.Common.Int.{pos, negsuc, ◌>>=◌}
use cnc_robot_control.Axis.Samples.{whole}
use cnc_robot_control.Config.Chars.{Bytes, codes}
use cnc_robot_control.Time.Print.{print_time, format_long, decimal_of, time_to_double}
use cnc_robot_control.Time.Calc.{add_time, sub_time}
use cnc_robot_control.Time.Laws.{time, sub_time-add_time}

abbrev half : ℕ
half = 500_000_000

sub_time-add_time_example :
    (add_time (time 1 half) (time 2 half) >>= λ t. sub_time t (time 2 half)) ≡ some (time 1 half)
sub_time-add_time_example =
    sub_time-add_time 1 half 2 half (omega arith) (omega arith) (omega arith) (omega arith)

abbrev blank : Bytes
blank = replicate 32 b'x'

-- Half a second before zero is printed as one and a half.
minus_half : print_time (record { tv_sec = negsuc 0; tv_nsec = pos half }) ≡ codes "-1.500000000"
unfolding print_time format_long decimal_of
minus_half = refl

one_second :
    sub_time (time 1 0) (time 1 half) ≡ some (record { tv_sec = negsuc 0; tv_nsec = pos half })
unfolding sub_time
one_second = refl

half_double : time_to_double whole (time 7 0) ≡ pos 7
unfolding time_to_double
half_double = refl
