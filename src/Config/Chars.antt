-- ===== src/Config/Chars.antt =====
-- The C library's character classes (in the "C" locale), `strncmp` and `atoi`, on strings as lists of
-- bytes without their terminator; and control/src/config.c: `str_to_dir`, `str_to_int`.
use Prim.Native.Nat.{min}
use Prim.Native.Char.{code}
use Prim.Native.String.{String}
use cnc_robot_control.Common.{
  ℕ, zero, suc, ◌+◌, ◌-◌, ◌*◌, ◌%◌, ◌^◌, Bool, true, false, ◌&&◌, ◌||◌, List, [], ◌∷◌, ltb, leb,
  ◌==◌, if◌then◌else◌,
}

abbrev pub Bytes : Type 0
Bytes = List ℕ

-- The bytes of an ASCII literal.
abbrev pub codes : String → Bytes
codes String.[] = []
codes (String.◌∷◌ c s) = code c ∷ codes s

abbrev pub islower : ℕ → Bool
islower c = leb b'a' c && leb c b'z'

abbrev pub isdigit : ℕ → Bool
isdigit c = leb b'0' c && leb c b'9'

abbrev pub isalnum : ℕ → Bool
isalnum c = isdigit c || islower c || leb b'A' c && leb c b'Z'

abbrev pub isblank : ℕ → Bool
isblank c = c == b' ' || c == b'\t'

-- `strncmp(a, b, n) == 0`
unfoldable pub strncmp_eq : Bytes → Bytes → ℕ → Bool
strncmp_eq a b zero = true
strncmp_eq [] [] (suc n) = true
strncmp_eq [] (y ∷ b) (suc n) = false
strncmp_eq (x ∷ a) [] (suc n) = false
strncmp_eq (x ∷ a) (y ∷ b) (suc n) = x == y && strncmp_eq a b n

abbrev pub direction_counterclockwise : ℕ
direction_counterclockwise = 0

abbrev pub direction_clockwise : ℕ
direction_clockwise = 1

abbrev pub direction_invalid : ℕ
direction_invalid = 2

unfoldable pub str_to_dir : Bytes → ℕ
str_to_dir s =
    if strncmp_eq s (codes "counterclockwise") 16
    then direction_counterclockwise
    else if strncmp_eq s (codes "clockwise") 16
    then direction_clockwise
    else direction_invalid

pub all_digits : Bytes → Bool
all_digits [] = true
all_digits (c ∷ s) = isdigit c && all_digits s

pub decimal : ℕ → Bytes → ℕ
decimal acc [] = acc
decimal acc (c ∷ s) = decimal (acc * 10 + (c - b'0')) s

-- `atoi` of a string of digits, as glibc has it: `(int) strtol`, which stops at the largest `long`.
-- An `int` is its 32-bit pattern.
unfoldable pub atoi : Bytes → ℕ
unfolding decimal
atoi s = min (decimal 0 s) (2 ^ 63 - 1) % 2 ^ 32

abbrev pub minus_one : ℕ
minus_one = 2 ^ 32 - 1

-- `n > 0`, of the `int` with pattern `n`.
abbrev pub is_positive : ℕ → Bool
is_positive n = ltb 0 n && ltb n (2 ^ 31)

unfoldable pub str_to_int : Bytes → ℕ
unfolding all_digits atoi
str_to_int s = if all_digits s then atoi s else minus_one
