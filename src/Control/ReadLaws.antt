-- ===== src/Control/ReadLaws.antt =====
-- control/src/control.c: what `read_message` makes of the pieces in which a message arrives.
use native.Mathlib.Nat.{add-zero}
use cnc_robot_control.Common.{
  length-drop, drop-drop, ℕ, suc, ◌+◌, ◌≤◌, ◌<◌, ◌≡◌, ◌∙◌, refl, Bool, true, false, ◌&&◌, List, [],
  ◌∷◌, ◌++◌, append_assoc, some, arith, get_elem?, leb, ◌==◌, length, drop, length-append,
}
use cnc_robot_control.Control.Message.{
  Read, got, returned, put_bytes, is_below, after_read, read_loop, read_message,
}
use cnc_robot_control.Stepper.Values.{success}

-- The bytes of the pieces, one after the other.
abbrev pub joined : List (List ℕ) → List ℕ
joined [] = []
joined (c ∷ cs) = c ++ joined cs

abbrev pub arriving : List (List ℕ) → List Read
arriving [] = []
arriving (c ∷ cs) = got c ∷ arriving cs

abbrev pub NoneEmpty : List (List ℕ) → Type 0
NoneEmpty [] = Unit
NoneEmpty (c ∷ cs) = (0 < length c) × NoneEmpty cs

-- A length that a `char` holds as a number that is not negative.
abbrev pub FitsChar : Bool → ℕ → Type 0
FitsChar signed n = (signed && leb 128 n) ≡ false

put_bytes-front :
    (bs old : List ℕ)
    → length bs ≤ length old
    → put_bytes 0 bs old ≡ some (bs ++ drop (length bs) old)
put_bytes-front [] old h = refl
put_bytes-front (b ∷ bs) [] h = elim h [ ]
put_bytes-front (b ∷ bs) (x ∷ old) h = rw (put_bytes-front bs old (omega arith)) refl

put_bytes-behind :
    (done bs old : List ℕ)
    → length bs ≤ length old
    → put_bytes (length done) bs (done ++ old) ≡ some (done ++ (bs ++ drop (length bs) old))
put_bytes-behind [] bs old h = put_bytes-front bs old h
put_bytes-behind (x ∷ done) bs old h = rw (put_bytes-behind done bs old h) refl

-- A round writes a piece and a 0 over the 0 of the round before.
pub put_bytes-piece :
    (done c old : List ℕ)
    → length c ≤ length old
    → put_bytes (length done) (c ++ 0 ∷ []) (done ++ (0 ∷ old))
      ≡ some ((done ++ c) ++ (0 ∷ drop (length c) old))
put_bytes-piece done c old l =
    let n : length (c ++ 0 ∷ []) ≡ suc (length c) = omega (arith, length-append c (0 ∷ [])) in
    put_bytes-behind done (c ++ 0 ∷ []) (0 ∷ old) (omega arith) ∙ rw n (simp append_assoc)

pub below : (signed : Bool) (k n : ℕ) → FitsChar signed n → k < n → is_below signed k n ≡ true
below signed k n f h = ground arith

not_below : (signed : Bool) (k n : ℕ) → n ≤ k → is_below signed k n ≡ false
not_below signed k n h = ground arith

not_zero : (k n : ℕ) → suc k ≤ n → (n == 0) ≡ false
not_zero k n h = ground arith

-- The rest of a message whose first bytes have been read.
rest_read :
    (signed : Bool) (n : ℕ) (d : List ℕ) (pieces : List (List ℕ)) (more : List Read) (old : List ℕ)
    → FitsChar signed n
    → NoneEmpty pieces
    → suc (length d) + length (joined pieces) ≡ n
    → length (joined pieces) ≤ length old
    → after_read signed
        (length (n ∷ d))
        (some ((n ∷ d) ++ (0 ∷ old)))
        (arriving pieces ++ more)
        (λ b. read_loop signed (arriving pieces ++ more) (length (n ∷ d)) b)
      ≡ returned success
          ((n ∷ d) ++ (joined pieces ++ (0 ∷ drop (length (joined pieces)) old)))
          more
unfolding after_read read_loop
rest_read signed n d [] more old f e s l =
    rw (not_below signed (suc (length d)) n (omega arith), not_zero (length d) n (omega arith)) refl
rest_read signed n d (c ∷ cs) more old f (e, es) s l =
    let room : length c ≤ length old = omega (arith, length-append c (joined cs)) in
    let ends : length (n ∷ (d ++ c)) ≡ length c + suc (length d) =
      omega (arith, length-append d c) in
    let size : length (joined (c ∷ cs)) ≡ length c + length (joined cs) =
      length-append c (joined cs) in
    let left : length (joined cs) ≤ length (drop (length c) old) =
      omega (arith, size, length-drop (length c) old) in
    let rest =
      rest_read signed n (d ++ c) cs more (drop (length c) old) f es (omega (arith, ends, size))
        left in
    rw (below signed (suc (length d)) n f (omega arith), put_bytes-piece (n ∷ d) c old room)
      (rw ends at rest
        ∙ rw (drop-drop (length c) (length (joined cs)) old, size) (simp append_assoc))

pub first_round :
    (b x : ℕ) (bs old : List ℕ)
    → length (b ∷ bs) ≤ length old
    → put_bytes 0 ((b ∷ bs) ++ 0 ∷ []) (x ∷ old)
      ≡ some ((b ∷ bs) ++ (0 ∷ drop (length (b ∷ bs)) old))
first_round b x bs old l =
    let n : length (bs ++ 0 ∷ []) ≡ suc (length bs) = omega (arith, length-append bs (0 ∷ [])) in
    put_bytes-front ((b ∷ bs) ++ 0 ∷ []) (x ∷ old) (omega arith) ∙ rw n (simp append_assoc)

-- A message that arrives in pieces, none of them empty, whose first byte is its length, a number that a
-- `char` of the platform holds, and that is shorter than the buffer: `read_message` returns 0 with the
-- bytes of the message put together at the start of the buffer, a 0 behind them, and the rest of the
-- buffer as it was, and it reads no more than these pieces.
pub read_message-whole :
    (signed : Bool) (pieces : List (List ℕ)) (more : List Read) (buff : List ℕ)
    → NoneEmpty pieces
    → get_elem? (joined pieces) 0 ≡ some (length (joined pieces))
    → FitsChar signed (length (joined pieces))
    → length (joined pieces) < length buff
    → read_message signed (arriving pieces ++ more) buff
      ≡ returned success (joined pieces ++ (0 ∷ drop (suc (length (joined pieces))) buff)) more
unfolding read_message read_loop
read_message-whole signed pieces more [] e h f l = elim l [ ]
read_message-whole signed [] more (x ∷ buff) e h f l = ground (arith, h)
read_message-whole signed ([] ∷ cs) more (x ∷ buff) (e, es) h f l = elim e [ ]
read_message-whole signed ((b ∷ bs) ∷ cs) more (x ∷ buff) (e, es) h f l =
    let size : length (joined ((b ∷ bs) ∷ cs)) ≡ length (b ∷ bs) + length (joined cs) =
      length-append (b ∷ bs) (joined cs) in
    let n : length (joined ((b ∷ bs) ∷ cs)) ≡ b = ground (arith, h) in
    let room : length (b ∷ bs) ≤ length buff = omega arith in
    let left : length (joined cs) ≤ length (drop (length (b ∷ bs)) buff) =
      omega (arith, length-drop (length (b ∷ bs)) buff) in
    let rest =
      rest_read signed b bs cs more (drop (length (b ∷ bs)) buff) (rw (← n) f) es (omega arith)
        left in
    rw (add-zero, first_round b 255 bs buff room)
      (rest
        ∙ rw (drop-drop (length (b ∷ bs)) (length (joined cs)) buff, ← size) (simp append_assoc))
