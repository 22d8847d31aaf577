-- ===== src/Time/Calc.antt =====
-- core/src/Time.c: `add_time`, `sub_time`, `mul_time`, `div_time` and `microsec_to_timespec`.
use cnc_robot_control.Common.{
  ℕ, ◌+◌, ◌-◌, ◌*◌, ◌/◌, ◌%◌, ◌^◌, Option, some, ltb, ◌==◌, if◌then◌else◌,
}
use cnc_robot_control.Common.Int.{
  ℤ, pos, negsuc, ◌+ℤ◌, ◌-ℤ◌, ◌*ℤ◌, ltb_ℤ, long, to_ulong, to_long, ◌>>=◌,
}

pub record Timespec : Type 0 where
  pub tv_sec : ℤ
  pub tv_nsec : ℤ

abbrev pub nano_in_second : ℕ
nano_in_second = 1_000_000_000

abbrev pub nano_in_micro : ℕ
nano_in_micro = 1000

unfoldable pub add_time : Timespec → Timespec → Option Timespec
unfolding ◌+ℤ◌ ◌-ℤ◌
add_time ta tb = do
  ns ← long (ta.tv_nsec +ℤ tb.tv_nsec)
  s ← long (ta.tv_sec +ℤ tb.tv_sec)
  if ltb_ℤ (pos nano_in_second) ns
      then (do
        ns' ← long (ns -ℤ pos nano_in_second)
        s' ← long (s +ℤ pos 1)
        some (record { tv_sec = s'; tv_nsec = ns' }))
      else some (record { tv_sec = s; tv_nsec = ns })

unfoldable pub sub_time : Timespec → Timespec → Option Timespec
unfolding ◌+ℤ◌ ◌-ℤ◌
sub_time ta tb = do
  sec ← long (ta.tv_sec -ℤ tb.tv_sec)
  ns ← long (ta.tv_nsec -ℤ tb.tv_nsec)
  if ltb_ℤ ns (pos 0)
      then (do
        ns' ← long (ns +ℤ pos nano_in_second)
        sec' ← long (sec -ℤ pos 1)
        some (record { tv_sec = sec'; tv_nsec = ns' }))
      else some (record { tv_sec = sec; tv_nsec = ns })

-- The products are taken in `long` and stored in `unsigned long`, where the rest wraps.
unfoldable pub mul_time : Timespec → ℕ → Option Timespec
unfolding ◌*ℤ◌
mul_time ta b = if b == 0 then some (record { tv_sec = pos 0; tv_nsec = pos 0 }) else (do
  s0 ← long (ta.tv_sec *ℤ b)
  ns0 ← long (ta.tv_nsec *ℤ b)
  let s = to_ulong s0
  let ns = to_ulong ns0
  if ltb nano_in_second ns
      then some (record {
        tv_sec = to_long ((s + ns / nano_in_second) % 2 ^ 64);
        tv_nsec = to_long (ns - ns % nano_in_second);
      })
      else some (record { tv_sec = to_long s; tv_nsec = to_long ns }))

-- C's `/` and `%` on a `long` and an unsigned 32-bit divisor: rounded towards zero.
abbrev pub quot : ℤ → ℕ → ℤ
quot (pos n) b = pos (n / b)
quot (negsuc n) b = if (n + 1) / b == 0 then pos 0 else negsuc ((n + 1) / b - 1)

abbrev pub rem : ℤ → ℕ → ℤ
rem (pos n) b = pos (n % b)
rem (negsuc n) b = if (n + 1) % b == 0 then pos 0 else negsuc ((n + 1) % b - 1)

unfoldable pub div_time : Timespec → ℕ → Timespec
div_time ta b =
    if b == 0
    then record { tv_sec = pos 0; tv_nsec = pos 0 }
    else let ns = (to_ulong (rem ta.tv_sec b) * nano_in_second + to_ulong ta.tv_nsec) % 2 ^ 64 in
      record { tv_sec = quot ta.tv_sec b; tv_nsec = to_long (ns / b) }

-- `us * NANO_IN_MICRO` is a product of two `unsigned int`, which wraps at 32 bits.
unfoldable pub microsec_to_timespec : ℕ → Timespec
unfolding ◌-ℤ◌
microsec_to_timespec us =
    let ns = us * nano_in_micro % 2 ^ 32 in
    if ltb nano_in_second ns
    then (let s = ns % nano_in_second in
        record { tv_sec = pos s; tv_nsec = pos ns -ℤ pos (s * nano_in_second) })
    else record { tv_sec = pos 0; tv_nsec = pos ns }
