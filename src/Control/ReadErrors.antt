-- ===== src/Control/ReadErrors.antt =====
-- control/src/control.c: `read_message` at the end of a connection, and where it leaves its buffer.
use native.Mathlib.Nat.{add-zero}
use cnc_robot_control.Common.{
  ℕ, suc, ◌+◌, ◌≤◌, ◌<◌, ◌≡◌, refl, Bool, List, [], ◌∷◌, ◌++◌, some, none, arith, length, drop,
  length-append, length-drop,
}
use cnc_robot_control.Control.Message.{
  Read, got, failed, returned, waiting, faulted, put_bytes, after_read, read_loop, read_message,
}
use cnc_robot_control.Control.ReadLaws.{
  joined, arriving, FitsChar, put_bytes-piece, below, first_round,
}
use cnc_robot_control.Stepper.Values.{failure}

rest_waits :
    (signed : Bool) (n : ℕ) (d : List ℕ) (pieces : List (List ℕ)) (old : List ℕ)
    → FitsChar signed n
    → suc (length d) + length (joined pieces) < n
    → length (joined pieces) ≤ length old
    → after_read signed
        (length (n ∷ d))
        (some ((n ∷ d) ++ (0 ∷ old)))
        (arriving pieces)
        (λ b. read_loop signed (arriving pieces) (length (n ∷ d)) b)
      ≡ waiting
unfolding after_read read_loop
rest_waits signed n d [] old f s l = rw (below signed (suc (length d)) n f (omega arith)) refl
rest_waits signed n d (c ∷ cs) old f s l =
    let room : length c ≤ length old = omega (arith, length-append c (joined cs)) in
    let ends : length (n ∷ (d ++ c)) ≡ length c + suc (length d) =
      omega (arith, length-append d c) in
    let size : length (joined (c ∷ cs)) ≡ length c + length (joined cs) =
      length-append c (joined cs) in
    let left : length (joined cs) ≤ length (drop (length c) old) =
      omega (arith, size, length-drop (length c) old) in
    let rest =
      rest_waits signed n (d ++ c) cs (drop (length c) old) f (omega (arith, ends, size)) left in
    rw (below signed (suc (length d)) n f (omega arith), put_bytes-piece (n ∷ d) c old room)
      (rw ends at rest)

-- A message that is cut off: fewer bytes than the first one says have come, in a first piece that is not
-- empty and any number of others, among them empty ones, which are what `read` gives at the end of the
-- connection. Then `read_message` is still in its loop, however often it has read the end.
pub read_message-cut :
    (signed : Bool) (b : ℕ) (bs : List ℕ) (pieces : List (List ℕ)) (buff : List ℕ)
    → FitsChar signed b
    → length (b ∷ bs) + length (joined pieces) < b
    → length (b ∷ bs) + length (joined pieces) < length buff
    → read_message signed (got (b ∷ bs) ∷ arriving pieces) buff ≡ waiting
unfolding read_message read_loop
read_message-cut signed b bs pieces [] f s l = elim l [ ]
read_message-cut signed b bs pieces (x ∷ buff) f s l =
    let left : length (joined pieces) ≤ length (drop (length (b ∷ bs)) buff) =
      omega (arith, length-drop (length (b ∷ bs)) buff) in
    rw (add-zero, first_round b 255 bs buff (omega arith))
      (rest_waits signed b bs pieces (drop (length (b ∷ bs)) buff) f s left)

-- A connection that ends before a message: -1, with nothing but a 0 written.
pub read_message-closed :
    (signed : Bool) (x : ℕ) (buff : List ℕ) (more : List Read)
    → read_message signed (got [] ∷ more) (x ∷ buff) ≡ returned failure (0 ∷ buff) more
unfolding read_message read_loop after_read
read_message-closed signed x buff more = ground arith

put_bytes-over : (bs buff : List ℕ) → length buff < length bs → put_bytes 0 bs buff ≡ none
put_bytes-over [] buff h = elim h [ ]
put_bytes-over (b ∷ bs) [] h = refl
put_bytes-over (b ∷ bs) (x ∷ buff) h = rw (put_bytes-over bs buff (omega arith)) refl

-- A first read that fills the whole buffer, as it may, or one that fails: the terminating 0 is written
-- outside the buffer.
pub read_message-outside :
    (signed : Bool) (chunk : List ℕ) (x : ℕ) (buff : List ℕ) (more : List Read)
    → length (x ∷ buff) ≤ length chunk
    → (read_message signed (got chunk ∷ more) (x ∷ buff) ≡ faulted)
      × (read_message signed (failed ∷ more) (x ∷ buff) ≡ faulted)
unfolding read_message read_loop after_read
read_message-outside signed chunk x buff more h =
    let size = length-append chunk (0 ∷ []) in
    (rw (put_bytes-over (chunk ++ 0 ∷ []) (255 ∷ buff) (omega (arith, size))) refl, refl)
