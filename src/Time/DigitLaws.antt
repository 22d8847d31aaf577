-- ===== src/Time/DigitLaws.antt =====
-- core/src/Time.c: the text of a time, read back digit by digit.
use native.Mathlib.Nat.{zero-add, suc-add}
use cnc_robot_control.Common.{
  ℕ, zero, suc, ◌+◌, ◌-◌, ◌*◌, ◌/◌, ◌%◌, ◌^◌, ◌≤◌, ◌<◌, ◌≡◌, ◌∙◌, refl, ap, true, false, [], ◌∷◌,
  ◌++◌, Option, none, some, arith, ◌==◌, if◌then◌else◌, length, length-append, Bool-cases, inl, inr,
}
use cnc_robot_control.Config.Chars.{Bytes, isdigit}
use cnc_robot_control.Time.Calc.{Timespec, nano_in_second}
use cnc_robot_control.Time.Laws.{time}
use cnc_robot_control.Time.Print.{digits, strip, long_digits, decimal_of}

-- A number read from the front of a text, as far as its digits go, and the text behind them.
pub read_number : ℕ → Bytes → ℕ × Bytes
read_number acc [] = (acc, [])
read_number acc (c ∷ s) =
    let more = read_number (acc * 10 + (c - b'0')) s in if isdigit c then more else (acc, c ∷ s)

-- A time is read as two numbers with a point between them.
abbrev pub after_point : ℕ → Bytes → Option Timespec
after_point s [] = none
after_point s (c ∷ text) = if c == b'.' then some (time s (read_number 0 text).0) else none

unfoldable pub read_time : Bytes → Option Timespec
read_time text = let (s, rest) = read_number 0 text in after_point s rest

abbrev pub AllDigits : Bytes → Type 0
AllDigits [] = Unit
AllDigits (c ∷ s) = (isdigit c ≡ true) × AllDigits s

abbrev pub value : ℕ → Bytes → ℕ
value acc [] = acc
value acc (c ∷ s) = value (acc * 10 + (c - b'0')) s

-- A text that no digit begins.
abbrev pub Ends : Bytes → Type 0
Ends [] = Unit
Ends (c ∷ s) = isdigit c ≡ false

pub read_number-digits :
    (acc : ℕ) (s rest : Bytes)
    → AllDigits s
    → Ends rest
    → read_number acc (s ++ rest) ≡ (value acc s, rest)
unfolding read_number
read_number-digits acc [] [] a e = refl
read_number-digits acc [] (c ∷ rest) a e = rw e refl
read_number-digits acc (c ∷ s) rest (d, a) e =
    rw d (read_number-digits (acc * 10 + (c - b'0')) s rest a e)

AllDigits-append : (s r : Bytes) → AllDigits s → AllDigits r → AllDigits (s ++ r)
AllDigits-append [] r a b = b
AllDigits-append (c ∷ s) r (d, a) b = (d, AllDigits-append s r a b)

value-last : (acc c : ℕ) (s : Bytes) → value acc (s ++ c ∷ []) ≡ value acc s * 10 + (c - b'0')
value-last acc c [] = refl
value-last acc c (x ∷ s) = value-last (acc * 10 + (x - b'0')) c s

abbrev power : ℕ → ℕ
power zero = 1
power (suc k) = 10 * power k

digits-AllDigits : (k n : ℕ) → AllDigits (digits k n)
unfolding digits
digits-AllDigits zero n = tt
digits-AllDigits (suc k) n =
    AllDigits-append (digits k (n / 10)) _ (digits-AllDigits k (n / 10)) (ground arith, tt)

value-digits : (k n : ℕ) → n < power k → value 0 (digits k n) ≡ n
unfolding digits
value-digits zero n h = omega arith
value-digits (suc k) n h =
    omega (
      arith,
      value-last 0 (b'0' + n % 10) (digits k (n / 10)),
      value-digits k (n / 10) (omega arith),
    )

length-digits : (k n : ℕ) → length (digits k n) ≡ k
unfolding digits
length-digits zero n = refl
length-digits (suc k) n =
    omega
      (arith, length-append (digits k (n / 10)) ((b'0' + n % 10) ∷ []), length-digits k (n / 10))

strip-AllDigits : (s : Bytes) → AllDigits s → AllDigits (strip s)
unfolding strip
strip-AllDigits [] a = a
strip-AllDigits (c ∷ []) a = a
strip-AllDigits (c ∷ d ∷ s) a = elim (Bool-cases (c == b'0')) [
  | inl e ↦ rw e (strip-AllDigits (d ∷ s) a.1)
  | inr e ↦ rw e a
]

value-strip : (s : Bytes) → value 0 (strip s) ≡ value 0 s
unfolding strip
value-strip [] = refl
value-strip (c ∷ []) = refl
value-strip (c ∷ d ∷ s) = elim (Bool-cases (c == b'0')) [
  | inl e ↦ let z : c ≡ b'0' = ground arith in rw (e, z) (value-strip (d ∷ s))
  | inr e ↦ rw e refl
]

length-strip : (s : Bytes) → length (strip s) ≤ length s
unfolding strip
length-strip [] = omega arith
length-strip (c ∷ []) = omega arith
length-strip (c ∷ d ∷ s) = ground (arith, length-strip (d ∷ s))

digits-small : (k n : ℕ) → n < power k → digits (suc k) n ≡ b'0' ∷ digits k n
unfolding digits
digits-small zero n h = let z : n ≡ 0 = omega arith in rw z refl
digits-small (suc k) n h = rw (digits-small k (n / 10) (omega arith)) refl

strip-zero : (s : Bytes) → 0 < length s → strip (b'0' ∷ s) ≡ strip s
unfolding strip
strip-zero [] h = elim h [ ]
strip-zero (c ∷ s) h = refl

power_below : (i k n : ℕ) → n < power k → n < power (i + k)
power_below zero k n h = rw zero-add h
power_below (suc i) k n h = rw suc-add (omega (arith, power_below i k n h))

strip_more : (i k n : ℕ) → 0 < k → n < power k → strip (digits (i + k) n) ≡ strip (digits k n)
strip_more zero k n p h = rw zero-add refl
strip_more (suc i) k n p h = rw suc-add (
    ap strip (digits-small (i + k) n (power_below i k n h))
    ∙ strip-zero (digits (i + k) n) (omega (arith, length-digits (i + k) n))
    ∙ strip_more i k n p h)

-- The decimal text of a number: its digits, its value and its length.
pub decimal_of-AllDigits : (n : ℕ) → AllDigits (decimal_of n)
unfolding decimal_of
decimal_of-AllDigits n = strip-AllDigits (digits long_digits n) (digits-AllDigits long_digits n)

pub value-decimal_of : (n : ℕ) → n ≤ 2 ^ 63 → value 0 (decimal_of n) ≡ n
unfolding decimal_of
value-decimal_of n h = value-strip (digits long_digits n) ∙ value-digits long_digits n (omega arith)

pub length-decimal_of : (n : ℕ) → length (decimal_of n) ≤ long_digits
unfolding decimal_of
length-decimal_of n =
    omega (arith, length-strip (digits long_digits n), length-digits long_digits n)

pub length-decimal_of-small : (n : ℕ) → n < nano_in_second → length (decimal_of n) ≤ 9
unfolding decimal_of
length-decimal_of-small n h =
    rw (strip_more 10 9 n (omega arith) (omega arith))
      (omega (arith, length-strip (digits 9 n), length-digits 9 n))
