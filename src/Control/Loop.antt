-- ===== src/Control/Loop.antt =====
-- control/src/control.c: the loop of `main`, the handler of Ctrl-C, and the end of the program.
use cnc_robot_control.Common.{ℕ, Bool, true, List, [], ◌∷◌, Option, none, some, if◌then◌else◌}
use cnc_robot_control.Common.Int.{ℤ, pos}
use cnc_robot_control.Axis.Double.{Double}
use cnc_robot_control.Control.Message.{Reading, returned, waiting, faulted, read_message}
use cnc_robot_control.Control.Program.{Control, Platform, decode_message}
use cnc_robot_control.Ipc.Listener.{call, close, close_listener, is_negative}
use cnc_robot_control.Stepper.Values.{eq_ℤ}
use cnc_robot_control.Stepper.World.{Env}

-- How a call of `select` comes back: with a result that is not positive, interrupted by Ctrl-C, or with
-- the descriptors that `FD_ISSET` finds set.
pub data Select : Type 0 where
  select_failed interrupted : Select
  selected : (ℤ → Bool) → Select

-- A round of the loop: it comes to its end with the buffer `msg`, waits in `read`, or does what is
-- undefined.
pub data Round (D : Type 0) : Type 0 where
  next : Control D → List ℕ → Round D
  in_read : Round D
  undefined : Round D

-- The program: ended, in a call of `select` or of `read`, or undefined.
pub data Run (D : Type 0) : Type 0 where
  ended : Control D → Run D
  in_select : Control D → Run D
  stuck_read : Run D
  no_meaning : Run D

-- The loop that looks for the first descriptor that is ready.
abbrev pub ready_socket : (ℤ → Bool) → List ℤ → ℤ → ℤ
ready_socket is_set [] rdy_sock = rdy_sock
ready_socket is_set (fd ∷ fds) rdy_sock =
    if eq_ℤ rdy_sock (pos 0)
    then ready_socket is_set fds (if is_set fd then fd else pos 0)
    else rdy_sock

module _ {D : Type 0} where
  abbrev pub halted : Control D → Control D
  halted c = record c { stop = true }

  abbrev pub sigint_handler : Control D → Control D
  sigint_handler c = halted c

  abbrev pub socket_list : Control D → List ℤ
  socket_list c = c.zed_socket ∷ c.flask_socket ∷ []

  abbrev pub decoded : List ℕ → Option (ℤ × Control D) → Round D
  decoded msg none = undefined
  decoded msg (some (r, c)) = next (if is_negative r then halted c else c) msg

  unfoldable pub after_round : Round D → (Control D → List ℕ → Run D) → Run D
  after_round (next c msg) more = more c msg
  after_round in_read more = stuck_read
  after_round undefined more = no_meaning

  -- `cleanup`: three sockets, then the listener.
  unfoldable pub cleanup : Control D → Control D
  cleanup c = record c {
    os = close_listener (
        call (close c.flask_socket) (call (close c.zed_socket) (call (close c.lidar_socket) c.os)));
  }

module _ {D : Type 0} (d : Double D) (env : Env) (p : Platform D) where
  -- What follows the call of `read_message`.
  unfoldable pub handle_message : Control D → ℤ → Reading → Round D
  handle_message c fd waiting = in_read
  handle_message c fd faulted = undefined
  handle_message c fd (returned r msg reads) =
      let c' = record c { inputs = λ x. if eq_ℤ fd x then reads else c.inputs x } in
      if is_negative r then next (halted c') msg else decoded msg (decode_message d env p msg c')

  unfoldable pub main_round : Select → Control D → List ℕ → Round D
  unfolding handle_message
  main_round select_failed c msg = next (halted c) msg
  main_round interrupted c msg = next (halted (sigint_handler c)) msg
  main_round (selected is_set) c msg =
      let fd = ready_socket is_set (socket_list c) (pos 0) in
      if is_set c.e_stop_fd
      then next (halted c) msg
      else handle_message c fd (read_message p.char_signed (c.inputs fd) msg)

  -- The loop `while(!stop)` and what follows it, for the calls of `select` that come back.
  unfoldable pub main_loop : List Select → Control D → List ℕ → Run D
  unfolding main_round after_round
  main_loop [] c msg = if c.stop then ended (cleanup c) else in_select c
  main_loop (s ∷ ss) c msg =
      if c.stop
      then ended (cleanup c)
      else after_round (main_round s c msg) (λ c' msg'. main_loop ss c' msg')
