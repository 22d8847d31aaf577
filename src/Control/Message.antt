-- ===== src/Control/Message.antt =====
-- control/src/control.c: `read_message`. The results of the calls of `read` on the socket, in their
-- order, are an argument. Whether the type `char` is signed depends on the platform: a parameter.
use cnc_robot_control.Common.{
  ℕ, zero, suc, ◌+◌, Bool, false, ◌&&◌, List, [], ◌∷◌, ◌++◌, Option, none, some, ltb, leb, ◌==◌,
  if◌then◌else◌, length,
}
use cnc_robot_control.Common.Int.{ℤ}
use cnc_robot_control.Stepper.Values.{success, failure}

abbrev pub msg_buff_size : ℕ
msg_buff_size = 256

-- The bytes that a call of `read` gives, none of them at the end of the file, or -1.
pub data Read : Type 0 where
  got : List ℕ → Read
  failed : Read

pub data Reading : Type 0 where
  returned : ℤ → List ℕ → List Read → Reading  -- the result, the buffer, and the reads not made
  waiting : Reading  -- in the loop, with no more reads to come
  faulted : Reading  -- a write outside the buffer

abbrev cons_byte : ℕ → Option (List ℕ) → Option (List ℕ)
cons_byte b none = none
cons_byte b (some bs) = some (b ∷ bs)

-- Bytes written to the buffer from an offset on.
abbrev pub put_bytes : ℕ → List ℕ → List ℕ → Option (List ℕ)
put_bytes zero [] buff = some buff
put_bytes zero (b ∷ bs) [] = none
put_bytes zero (b ∷ bs) (x ∷ buff) = cons_byte b (put_bytes zero bs buff)
put_bytes (suc k) bs [] = none
put_bytes (suc k) bs (x ∷ buff) = cons_byte x (put_bytes k bs buff)

-- `offset < buff[0]`
abbrev pub is_below : Bool → ℕ → ℕ → Bool
is_below signed offset b = if signed && leb 128 b then false else ltb offset b

-- What follows the writes of a round: the condition of the loop and the return.
unfoldable pub after_read : Bool → ℕ → Option (List ℕ) → List Read → (List ℕ → Reading) → Reading
after_read signed offset none reads more = faulted
after_read signed offset (some []) reads more = faulted
after_read signed offset (some (b ∷ buff)) reads more =
    if is_below signed offset b
    then more (b ∷ buff)
    else returned (if b == 0 then failure else success) (b ∷ buff) reads

-- A round writes what was read and a 0 behind it; a failed read moves the offset one back.
unfoldable pub read_loop : Bool → List Read → ℕ → List ℕ → Reading
unfolding after_read
read_loop signed [] offset buff = waiting
read_loop signed (got chunk ∷ reads) offset buff =
    after_read signed (length chunk + offset) (put_bytes offset (chunk ++ 0 ∷ []) buff) reads
      (λ b. read_loop signed reads (length chunk + offset) b)
read_loop signed (failed ∷ reads) zero buff = faulted
read_loop signed (failed ∷ reads) (suc offset) buff =
    after_read signed offset (put_bytes offset (0 ∷ []) buff) reads
      (λ b. read_loop signed reads offset b)

unfoldable pub read_message : Bool → List Read → List ℕ → Reading
unfolding read_loop
read_message signed reads [] = faulted
read_message signed reads (x ∷ buff) = read_loop signed reads 0 (255 ∷ buff)
