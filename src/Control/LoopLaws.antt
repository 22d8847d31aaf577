-- ===== src/Control/LoopLaws.antt =====
-- control/src/control.c: a round of the loop of `main`, from the bytes on a socket to the motors.
use cnc_robot_control.Common.{
  ℕ, suc, ◌<◌, ◌≡◌, refl, Bool, true, false, not, ◌&&◌, List, [], ◌∷◌, ◌++◌, some, arith,
  if◌then◌else◌, length, get_elem?, drop, Bool-cases, inl, inr,
}
use cnc_robot_control.Common.Int.{ℤ, pos}
use cnc_robot_control.Axis.Double.{Double}
use cnc_robot_control.Control.Loop.{
  selected, ready_socket, socket_list, decoded, handle_message, main_round,
}
use cnc_robot_control.Control.Message.{Read}
use cnc_robot_control.Control.Program.{Control, Platform, decode_message}
use cnc_robot_control.Control.ReadLaws.{joined, arriving, NoneEmpty, FitsChar, read_message-whole}
use cnc_robot_control.Stepper.Values.{eq_ℤ}
use cnc_robot_control.Stepper.World.{Env}

-- The first descriptor of a list that is ready and not 0, or 0.
abbrev pub first_ready : (ℤ → Bool) → List ℤ → ℤ
first_ready is_set [] = pos 0
first_ready is_set (fd ∷ fds) =
    if is_set fd && not (eq_ℤ fd (pos 0)) then fd else first_ready is_set fds

eq_zero : (z : ℤ) → eq_ℤ z (pos 0) ≡ true → z ≡ pos 0
eq_zero z e = ground (arith, e)

ready_socket-kept :
    (is_set : ℤ → Bool) (fds : List ℤ) (r : ℤ)
    → eq_ℤ r (pos 0) ≡ false
    → ready_socket is_set fds r ≡ r
ready_socket-kept is_set [] r e = refl
ready_socket-kept is_set (fd ∷ fds) r e = rw e refl

pub ready_socket-first_ready :
    (is_set : ℤ → Bool) (fds : List ℤ) → ready_socket is_set fds (pos 0) ≡ first_ready is_set fds
ready_socket-first_ready is_set [] = refl
ready_socket-first_ready is_set (fd ∷ fds) = elim (Bool-cases (is_set fd)) [
  | inr e ↦ rw e (ready_socket-first_ready is_set fds)
  | inl e ↦ elim (Bool-cases (eq_ℤ fd (pos 0))) [
    | inl z ↦ rw (e, eq_zero fd z) (ready_socket-first_ready is_set fds)
    | inr z ↦ rw (e, z) (ready_socket-kept is_set fds fd z)
  ]
]

abbrev pub unread : {D : Type 0} → ℤ → List Read → Control D → Control D
unread fd more c = record c { inputs = λ x. if eq_ℤ fd x then more else c.inputs x }

-- The buffer when a message has been read to it.
abbrev pub received : List (List ℕ) → List ℕ → List ℕ
received pieces buff = joined pieces ++ (0 ∷ drop (suc (length (joined pieces))) buff)

module _ {D : Type 0} (d : Double D) (env : Env) (p : Platform D) where
  -- With the emergency stop not pressed, and on the first descriptor that is ready, zed before flask, a
  -- message that comes in pieces, none of them empty, with its length in its first byte: the round is
  -- what `decode_message` makes of exactly these bytes, behind which the buffer has a 0, and what
  -- follows on the descriptor is left to be read.
  pub main_round-message :
      (is_set : ℤ → Bool) (c : Control D) (fd : ℤ) (pieces : List (List ℕ)) (more : List Read)
      (buff : List ℕ)
      → is_set c.e_stop_fd ≡ false
      → first_ready is_set (socket_list c) ≡ fd
      → c.inputs fd ≡ arriving pieces ++ more
      → NoneEmpty pieces
      → get_elem? (joined pieces) 0 ≡ some (length (joined pieces))
      → FitsChar p.char_signed (length (joined pieces))
      → length (joined pieces) < length buff
      → main_round d env p (selected is_set) c buff
        ≡ decoded
            (received pieces buff)
            (decode_message d env p (received pieces buff) (unread fd more c))
  unfolding main_round handle_message
  main_round-message is_set c fd pieces more buff off first i e h f l =
      rw
        (
          off,
          ready_socket-first_ready is_set (socket_list c),
          first,
          i,
          read_message-whole p.char_signed pieces more buff e h f l,
        )
        refl
