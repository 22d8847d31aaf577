-- ===== src/Control/Tests.antt =====
-- control/src/control.c on a few messages. A number stands in the first of its eight bytes.
use cnc_robot_control.Common.{
  Always, ℕ, ◌≡◌, refl, Bool, true, false, List, [], ◌∷◌, ◌++◌, Option, none, some, arith,
  if◌then◌else◌, replicate,
}
use cnc_robot_control.Common.Int.{ℤ, pos, negsuc, pos_part}
use cnc_robot_control.Axis.Motion.{axis_move, axis_set_speed}
use cnc_robot_control.Axis.MoveLaws.{axis_move-Moved}
use cnc_robot_control.Axis.Samples.{whole, axis_12, granting-Obliging}
use cnc_robot_control.Axis.SpeedLaws.{axis_set_speed-success}
use cnc_robot_control.Config.Chars.{Bytes, codes}
use cnc_robot_control.Config.Machine.{start}
use cnc_robot_control.Config.Samples.{willing, plant}
use cnc_robot_control.Config.Types.{Line, line}
use cnc_robot_control.Control.CommandLaws.{main_round-move}
use cnc_robot_control.Control.DecodeLaws.{Told, decode_message-Told}
use cnc_robot_control.Control.EndLaws.{Closed, main_loop-Closed}
use cnc_robot_control.Control.HaltLaws.{brought_down, main_loop-halts}
use cnc_robot_control.Control.Loop.{
  select_failed, interrupted, selected, next, main_round, main_loop,
}
use cnc_robot_control.Control.LoopLaws.{received, unread}
use cnc_robot_control.Control.MainLaws.{Whole, main-Whole}
use cnc_robot_control.Control.Message.{got, returned, waiting, read_message}
use cnc_robot_control.Control.ParamLaws.{passed_on, with_calls, main_round-params}
use cnc_robot_control.Control.Program.{Control, Platform, cmd_of, decode_message}
use cnc_robot_control.Control.ReadErrors.{read_message-cut}
use cnc_robot_control.Control.ReadLaws.{arriving, read_message-whole}
use cnc_robot_control.Control.Start.{Answers, System, init_system, main}
use cnc_robot_control.Stepper.Samples.{granting, free_world}
use cnc_robot_control.Stepper.SpeedLaws.{half_period_of, retimed}
use cnc_robot_control.Stepper.Values.{success, eq_ℤ, is_valid_direction_abs}
use cnc_robot_control.Stepper.World.{World}
use cnc_robot_control.Time.Laws.{time}

abbrev first_byte : List ℕ → ℕ
first_byte [] = 0
first_byte (b ∷ bs) = b

abbrev board : Platform ℤ
board = record {
  char_signed = false;
  double_of = λ bytes. pos (first_byte bytes);
  double_bytes = λ z. pos_part z ∷ replicate 7 0;
  long_bytes = λ z. pos_part z ∷ replicate 7 0;
  clock = λ c. time 3 0;
  meanwhile = λ w. w;
}

abbrev eight : ℕ → List ℕ
eight b = b ∷ replicate 7 0

abbrev move_pieces : List (List ℕ)
move_pieces = (18 ∷ 1 ∷ 5 ∷ []) ∷ (replicate 7 0 ++ eight 1) ∷ []

abbrev params_message : List ℕ
params_message = 32 ∷ 5 ∷ (replicate 29 7 ++ 2 ∷ [])

-- zed has sent a move and then parameters.
abbrev running : Control ℤ
running = record {
  x_axis = some axis_12;
  stop = false;
  zed_socket = pos 3;
  lidar_socket = pos 0;
  flask_socket = pos 5;
  e_stop_fd = pos 9;
  world = free_world;
  os = record { listener_fd = pos 4; calls = [] };
  inputs = λ fd. if eq_ℤ fd (pos 3) then arriving move_pieces else got params_message ∷ [];
}

abbrev ready : ℤ → ℤ → Bool
ready fd x = eq_ℤ fd x

abbrev blank : List ℕ
blank = replicate 256 0

read_message-whole_example :
    read_message true (got (3 ∷ 1 ∷ []) ∷ got (9 ∷ []) ∷ got (2 ∷ []) ∷ []) (replicate 6 7)
    ≡ returned success (3 ∷ 1 ∷ 9 ∷ 0 ∷ 7 ∷ 7 ∷ []) (got (2 ∷ []) ∷ [])
read_message-whole_example =
    read_message-whole true ((3 ∷ 1 ∷ []) ∷ (9 ∷ []) ∷ []) (got (2 ∷ []) ∷ []) (replicate 6 7)
      (omega arith, (omega arith, tt)) refl refl (omega arith)

read_message-cut_example :
    read_message true (got (5 ∷ 1 ∷ []) ∷ got [] ∷ got [] ∷ []) (replicate 6 7) ≡ waiting
read_message-cut_example =
    read_message-cut true 5 (1 ∷ []) ([] ∷ [] ∷ []) (replicate 6 7) refl (omega arith) (omega arith)

decode_message-Told_example :
    Always
      (λ x. Told whole granting board (cmd_of 3) running x)
      (decode_message whole granting board (3 ∷ 3 ∷ 0 ∷ []) running)
decode_message-Told_example =
    decode_message-Told whole granting board (3 ∷ 3 ∷ 0 ∷ []) 3 running refl

abbrev fast_world : World
fast_world = retimed (half_period_of 10) (1 ∷ 2 ∷ []) free_world

abbrev six_none : List (Option ℕ)
six_none = replicate 6 none

fast_axis :
    axis_set_speed whole (some axis_12) (pos 5) free_world
    ≡ some (success, some (record axis_12 { speed = pos 5 }), fast_world)
fast_axis =
    axis_set_speed-success whole axis_12 free_world (pos 5) 1 10 (2 ∷ []) six_none refl refl
      (omega arith) refl refl (omega arith) (refl, (refl, tt))

starts :
    (w : World) × (axis_move whole granting
        (some (record axis_12 { speed = pos 5 }))
        (pos 1)
        fast_world
      ≡ some (success, some (record axis_12 { speed = pos 5 }), w))
unfolding is_valid_direction_abs
starts =
    let (w1, w2, moves, _, _) =
      axis_move-Moved whole granting (record axis_12 { speed = pos 5 }) 1 1 2 (2 ∷ []) six_none
        fast_world (pos 1) refl refl refl refl granting-Obliging ((refl, refl), ((refl, refl), tt))
        (omega arith) (omega arith) (omega arith) (refl, (refl, tt)) (λ q e. ground arith) refl in
    (w1, moves)

main_round-move_example :
    main_round whole granting board (selected (ready (pos 3))) running blank
    ≡ next
        (record (unread (pos 3) [] running) {
          x_axis = some (record axis_12 { speed = pos 5 });
          world = starts.0;
        })
        (received move_pieces blank)
main_round-move_example =
    main_round-move whole granting board (ready (pos 3)) running (pos 3) move_pieces [] blank
      (eight 5) (eight 1) success success (some (record axis_12 { speed = pos 5 }))
      (some (record axis_12 { speed = pos 5 })) fast_world starts.0 refl refl refl
      (omega arith, (omega arith, tt)) refl refl refl refl fast_axis starts.1

main_round-params_example :
    main_round whole granting board (selected (ready (pos 5))) running blank
    ≡ next
        (with_calls (passed_on 2 (params_message ++ []) running) (unread (pos 5) [] running))
        (received (params_message ∷ []) blank)
main_round-params_example =
    main_round-params whole granting board (ready (pos 5)) running (pos 5) (params_message ∷ []) []
      blank 2 refl refl refl (omega arith, tt)
      (record { size = refl; command = refl; destination = refl }) refl (omega arith)

main_loop-Closed_example :
    Closed whole granting board running
      (main_loop whole granting board (selected (ready (pos 5)) ∷ interrupted ∷ []) running blank)
main_loop-Closed_example =
    main_loop-Closed whole granting board (selected (ready (pos 5)) ∷ interrupted ∷ []) running
      blank

main_loop-halts_example :
    main_loop whole granting board
      (selected (ready (pos 5)) ∷ selected (ready (pos 9)) ∷ select_failed ∷ [])
      running
      blank
    ≡ brought_down whole granting board
        (main_loop whole granting board (selected (ready (pos 5)) ∷ []) running blank)
main_loop-halts_example =
    main_loop-halts whole granting board (selected (ready (pos 5)) ∷ []) (select_failed ∷ [])
      (selected (ready (pos 9))) running blank refl

abbrev text_line : Bytes → Line
text_line s = line (s ++ 10 ∷ []) []

abbrev answers : Answers ℤ
answers = record {
  platform = willing;
  sockets = record {
    socket_fd = λ o. pos 4;
    bind_ok = λ o. true;
    listen_ok = λ o. true;
    file_exists = λ o. false;
    accept_fd = λ o. pos 5;
  };
  opened = true;
  file =
      text_line (codes "[motor]")
      ∷ text_line (codes "name=m")
      ∷ text_line (codes "step_pin=7")
      ∷ text_line (codes "dir_pin=11")
      ∷ text_line (codes "steps_per_rotation=200")
      ∷ text_line (codes "direction=clockwise")
      ∷ text_line (codes "microstep=16")
      ∷ text_line (codes "[axis]")
      ∷ text_line (codes "name=x-axis")
      ∷ text_line (codes "motors=m")
      ∷ text_line (codes "mm_per_rotation=20")
      ∷ [];
  malloc_axis_ok = λ s. true;
  edges_ok = λ fd. true;
  event_fd = λ fd. pos 9;
  fork = λ o. pos 100;
}

abbrev system : System ℤ
system = record {
  control = record running { x_axis = none; os = record { listener_fd = negsuc 0; calls = [] } };
  config = start 0 0 [];
  plant = plant;
}

abbrev arguments : List Bytes
arguments = codes "control" ∷ codes "zed.py" ∷ codes "lidar.py" ∷ []

main-Whole_example :
    Whole whole granting board answers
      (init_system whole answers arguments system)
      (main whole granting board answers arguments system (interrupted ∷ []) blank)
main-Whole_example =
    main-Whole whole granting board answers arguments system (interrupted ∷ []) blank refl
