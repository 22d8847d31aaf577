-- ===== src/Time/Delay.antt =====
-- core/src/Time.c: `Delay_ms`, `Delay_us`, `Delay_ns`. The result is the time handed to
-- `clock_nanosleep`, or `none` where the function returns at once.
use cnc_robot_control.Common.{ℕ, ◌*◌, ◌/◌, ◌%◌, Option, none, some}
use cnc_robot_control.Common.Int.{ℤ, pos, negsuc}
use cnc_robot_control.Time.Calc.{Timespec, nano_in_second, nano_in_micro}

abbrev pub milli_in_second : ℕ
milli_in_second = 1000

abbrev pub micro_in_second : ℕ
micro_in_second = 1_000_000

abbrev pub nano_in_milli : ℕ
nano_in_milli = 1_000_000

unfoldable pub delay_ms : ℤ → Option Timespec
delay_ms (negsuc n) = none
delay_ms (pos ms) = some (record {
  tv_sec = pos (ms / milli_in_second);
  tv_nsec = pos (ms % milli_in_second * nano_in_milli);
})

unfoldable pub delay_us : ℤ → Option Timespec
delay_us (negsuc n) = none
delay_us (pos us) = some (record {
  tv_sec = pos (us / micro_in_second);
  tv_nsec = pos (us % micro_in_second * nano_in_micro);
})

unfoldable pub delay_ns : ℤ → Option Timespec
delay_ns (negsuc n) = none
delay_ns (pos ns) =
    some (record { tv_sec = pos (ns / nano_in_second); tv_nsec = pos (ns % nano_in_second) })
