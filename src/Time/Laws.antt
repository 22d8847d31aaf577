-- ===== src/Time/Laws.antt =====
-- core/src/Time.c: what the operations on `struct timespec` compute, as numbers of nanoseconds.
use native.Mathlib.Nat.{
  div-add-mod, mod-lt, div-mul-le_self, lt-div-mul-add, div-eq_of_lt-le, div-lt_iff_lt-mul,
}
use native.Mathlib.Decide.{dec_lt}
use cnc_robot_control.Common.{
  ℕ, ◌+◌, ◌-◌, ◌*◌, ◌/◌, ◌%◌, ◌^◌, ◌≤◌, ◌<◌, ◌≡◌, ◌≢◌, none, some, arith,
}
use cnc_robot_control.Common.Int.{pos, negsuc, ◌*ℤ◌, long, ◌>>=◌}
use cnc_robot_control.Time.Calc.{
  Timespec, nano_in_second, add_time, sub_time, mul_time, div_time, microsec_to_timespec,
}
use cnc_robot_control.Time.Delay.{delay_ms, delay_us, delay_ns, nano_in_milli}

-- A time of `s` whole seconds and `ns` further nanoseconds, and its length in nanoseconds.
abbrev pub time : ℕ → ℕ → Timespec
time s ns = record { tv_sec = pos s; tv_nsec = pos ns }

abbrev pub nanos : ℕ → ℕ → ℕ
nanos s ns = s * nano_in_second + ns

-- The normal form of `n` nanoseconds: fewer than a second of them are left over.
abbrev pub normal : ℕ → Timespec
normal n = time (n / nano_in_second) (n % nano_in_second)

-- For times below 2 ^ 62 seconds whose nanoseconds do not add up to exactly one second, `add_time`
-- gives the normal form of the sum.
pub add_time_lem :
    (s ns s' ns' : ℕ)
    → s < 2 ^ 62
    → s' < 2 ^ 62
    → ns < nano_in_second
    → ns' < nano_in_second
    → ns + ns' ≢ nano_in_second
    → add_time (time s ns) (time s' ns') ≡ some (normal (nanos s ns + nanos s' ns'))
unfolding add_time
add_time_lem s ns s' ns' h h' k k' e = ground arith

-- Where the nanoseconds add up to exactly one second, `add_time` does not carry: the result has a
-- whole second in its nanosecond field.
pub add_time_boundary :
    (s ns s' ns' : ℕ)
    → s < 2 ^ 62
    → s' < 2 ^ 62
    → ns + ns' ≡ nano_in_second
    → add_time (time s ns) (time s' ns') ≡ some (time (s + s') nano_in_second)
unfolding add_time
add_time_boundary s ns s' ns' h h' e = ground arith

-- For two normal times with the first not before the second, `sub_time` gives the normal form of
-- the difference.
pub sub_time_lem :
    (s ns s' ns' : ℕ)
    → s < 2 ^ 62
    → s' < 2 ^ 62
    → ns < nano_in_second
    → ns' < nano_in_second
    → nanos s' ns' ≤ nanos s ns
    → sub_time (time s ns) (time s' ns') ≡ some (normal (nanos s ns - nanos s' ns'))
unfolding sub_time
sub_time_lem s ns s' ns' h h' k k' e = ground arith

add_time_low :
    (s ns s' ns' : ℕ)
    → s < 2 ^ 62
    → s' < 2 ^ 62
    → ns + ns' ≤ nano_in_second
    → add_time (time s ns) (time s' ns') ≡ some (time (s + s') (ns + ns'))
unfolding add_time
add_time_low s ns s' ns' h h' k = ground arith

add_time_high :
    (s ns s' ns' : ℕ)
    → s < 2 ^ 62
    → s' < 2 ^ 62
    → ns < nano_in_second
    → ns' < nano_in_second
    → nano_in_second < ns + ns'
    → add_time (time s ns) (time s' ns') ≡ some (time (s + s' + 1) (ns + ns' - nano_in_second))
unfolding add_time
add_time_high s ns s' ns' h h' k k' c = ground arith

-- Subtracting a time that was added gives the first time back, also where `add_time` did not carry.
pub sub_time-add_time :
    (s ns s' ns' : ℕ)
    → s < 2 ^ 62
    → s' < 2 ^ 62
    → ns < nano_in_second
    → ns' < nano_in_second
    → (add_time (time s ns) (time s' ns') >>= λ t. sub_time t (time s' ns')) ≡ some (time s ns)
unfolding sub_time
sub_time-add_time s ns s' ns' h h' k k' = elim (dec_lt nano_in_second (ns + ns')) [
  | yes carry ↦ rw (add_time_high s ns s' ns' h h' k k' carry) (ground arith)
  | no low ↦ rw (add_time_low s ns s' ns' h h' (omega arith)) (ground arith)
]

-- A second that does not divide evenly is handed down to the nanoseconds.
div_split :
    (s ns b : ℕ)
    → 0 < b
    → nanos s ns / b ≡ s / b * nano_in_second + (s % b * nano_in_second + ns) / b
div_split s ns b p =
    let d : b * (s / b) + s % b ≡ s = div-add-mod s b in
    let low = div-mul-le_self (s % b * nano_in_second + ns) b in
    let high : s % b * nano_in_second + ns < (s % b * nano_in_second + ns) / b * b + b =
      lt-div-mul-add p in
    div-eq_of_lt-le b (omega arith) (omega arith)

div_rest :
    (s ns b : ℕ) → ns < nano_in_second → 0 < b → (s % b * nano_in_second + ns) / b < nano_in_second
div_rest s ns b k p = (div-lt_iff_lt-mul p).1 (omega (arith, mod-lt s p))

-- `div_time` by a positive unsigned integer gives the normal form of the quotient, rounded down.
pub div_time_lem :
    (s ns b : ℕ)
    → s < 2 ^ 63
    → ns < nano_in_second
    → 0 < b
    → b < 2 ^ 32
    → div_time (time s ns) b ≡ normal (nanos s ns / b)
unfolding div_time
div_time_lem s ns b h k p w = ground (arith, div_split s ns b p, div_rest s ns b k p, mod-lt s p)

long_mul : (a b : ℕ) → a * b < 2 ^ 63 → long (pos a *ℤ b) ≡ some (pos (a * b))
unfolding ◌*ℤ◌
long_mul a b h = ground arith

-- `mul_time` gives the normal form of the product where the product of the nanosecond field stays
-- below one second.
pub mul_time_small :
    (s ns b : ℕ)
    → s * b < 2 ^ 63
    → ns * b < nano_in_second
    → mul_time (time s ns) b ≡ some (normal (nanos s ns * b))
unfolding mul_time
mul_time_small s ns b h k = ground (arith, long_mul s b, long_mul ns b)

-- Where it is above one second, `mul_time` carries the seconds and yet keeps them in the nanosecond
-- field, from which it takes the remainder away instead.
pub mul_time_large :
    (s ns b : ℕ)
    → s * b + ns * b / nano_in_second < 2 ^ 63
    → nano_in_second < ns * b
    → ns * b < 2 ^ 63
    → (mul_time (time s ns) b
        ≡ some (time (s * b + ns * b / nano_in_second) (ns * b / nano_in_second * nano_in_second)))
unfolding mul_time
mul_time_large s ns b h k w = ground (arith, long_mul s b, long_mul ns b)

-- `microsec_to_timespec` is right for every time below a second.
pub microsec_to_timespec_lem :
    (us : ℕ) → us < 1_000_000 → microsec_to_timespec us ≡ normal (us * 1000)
unfolding microsec_to_timespec
microsec_to_timespec_lem us h = ground arith

-- For every time above a second whose nanoseconds fit 32 bits, `microsec_to_timespec` gives another
-- time than the normal form of that many microseconds.
pub microsec_to_timespec_wrong :
    (us : ℕ) → 1_000_000 < us → us ≤ 4_294_967 → microsec_to_timespec us ≢ normal (us * 1000)
unfolding microsec_to_timespec
microsec_to_timespec_wrong us h k e = ground arith

-- Each delay sleeps for a normal time of the length asked for, and returns at once exactly for a
-- negative one.
pub delay_lem :
    (n : ℕ)
    → (delay_ms (pos n) ≡ some (normal (n * nano_in_milli)))
      × (delay_us (pos n) ≡ some (normal (n * 1000)))
      × (delay_ns (pos n) ≡ some (normal n))
      × (delay_ms (negsuc n) ≡ none)
      × (delay_us (negsuc n) ≡ none)
      × (delay_ns (negsuc n) ≡ none)
unfolding delay_ms delay_us delay_ns
delay_lem n = ground arith
