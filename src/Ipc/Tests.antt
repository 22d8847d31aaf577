-- ===== src/Ipc/Tests.antt =====
-- control/src/ipc.c: a short exchange over the double buffer, and the listener.
use cnc_robot_control.Common.{ℕ, ◌≡◌, refl, true, some, arith}
use cnc_robot_control.Ipc.Buffer.{
  PosData, PosBuffer, zeroed, push_begin, push_position, pop_check, pop_flip, pop_taken, pop_copy,
  pos_buffer_push, pos_buffer_pop,
}
use cnc_robot_control.Ipc.BufferLaws.{fresh_sharing, pos_buffer_pop-latest, pos_buffer_pop-torn}
use cnc_robot_control.Common.{[], ◌∷◌}
use cnc_robot_control.Common.Int.{pos, negsuc}
use cnc_robot_control.Ipc.Listener.{Os, Sockets, close_listener}
use cnc_robot_control.Ipc.ListenerLaws.{left_open}
use cnc_robot_control.Ipc.UsageLaws.{connects, disconnects, used, unused, close_listener-closes}
use cnc_robot_control.Ipc.Sharing.{Sharing, Writer, begun, begins, positions, Reaches, here, onward}
use cnc_robot_control.Time.Laws.{time}

abbrev datum : PosData ℕ
datum = record { position = 42; timestamp = time 3 0 }

abbrev start : Sharing ℕ
start = fresh_sharing 0

abbrev half_pushed : Sharing ℕ
half_pushed =
    let begun_one = record start { buffer = push_begin start.buffer; writer = begun datum } in
    record begun_one {
      buffer = push_position 42 begun_one.buffer;
      writer = Writer.positioned datum;
    }

half_pushed-reached : Reaches start half_pushed
half_pushed-reached =
    onward (onward here (begins start datum refl)) (
      positions (record start { buffer = push_begin start.buffer; writer = begun datum }) datum
        refl)

pos_buffer_pop-latest_example : (pos_buffer_pop half_pushed.buffer).0 ≡ half_pushed.seen
pos_buffer_pop-latest_example = pos_buffer_pop-latest 0 half_pushed half_pushed-reached

abbrev empty_buffer : PosBuffer ℕ
empty_buffer = zeroed 0

pos_buffer_pop-torn_example :
    (b1 : PosBuffer ℕ) × (pos_buffer_push (some empty_buffer) 7 (time 1 0) ≡ some b1)
    × (pop_check b1 ≡ true)
    × (pop_copy (pop_taken (pop_flip (push_position 9 (push_begin b1))))
        ≡ record { position = 9; timestamp = time 1 0 })
pos_buffer_pop-torn_example = pos_buffer_pop-torn empty_buffer 7 9 (time 1 0) (omega arith)

-- A system that gives descriptor 4 for the listener and 5 for a connection.
abbrev system : Sockets
system = record {
  socket_fd = λ o. pos 4;
  bind_ok = λ o. true;
  listen_ok = λ o. true;
  file_exists = λ o. true;
  accept_fd = λ o. pos 5;
}

abbrev before_start : Os
before_start = record { listener_fd = negsuc 0; calls = [] }

close_listener-closes_example :
    (left_open []
        (close_listener (used system unused (connects ∷ disconnects ∷ connects ∷ []))).calls
      ≡ [])
    × (close_listener (close_listener (used system unused (connects ∷ disconnects ∷ connects ∷ [])))
        ≡ close_listener (used system unused (connects ∷ disconnects ∷ connects ∷ [])))
close_listener-closes_example =
    close_listener-closes system (connects ∷ disconnects ∷ connects ∷ [])
      (λ o e. absurd (ground (arith, e)))
