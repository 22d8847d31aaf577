-- ===== src/Control/CommandLaws.antt =====
-- control/src/control.c: the commands to move and to pass parameters on, from a socket to their effect.
use mathlib.Core.Path.{subst}
use cnc_robot_control.Common.{
  take-front, drop-front, ℕ, suc, ◌<◌, ◌≡◌, ◌∙◌, sym, refl, ap, Bool, false, List, ◌∷◌, ◌++◌,
  append_assoc, Option, some, arith, length, length-append, take, drop,
}
use cnc_robot_control.Common.Int.{ℤ, ◌>>=◌}
use cnc_robot_control.Axis.Double.{Double}
use cnc_robot_control.Axis.Motion.{axis_move, axis_set_speed}
use cnc_robot_control.Axis.Object.{Axis}
use cnc_robot_control.Control.Loop.{selected, next, decoded, socket_list, main_round}
use cnc_robot_control.Control.LoopLaws.{first_ready, unread, received, main_round-message}
use cnc_robot_control.Control.Message.{Read}
use cnc_robot_control.Control.Program.{Control, Platform, do_move, run_cmd, decode_message}
use cnc_robot_control.Control.ReadLaws.{joined, arriving, NoneEmpty, FitsChar}
use cnc_robot_control.Stepper.Values.{success}
use cnc_robot_control.Stepper.World.{World, Env}

-- The message of CMD_MOVE: its length, the command, and the bytes of two numbers.
abbrev pub move_message : List ℕ → List ℕ → List ℕ
move_message speed distance = 18 ∷ 1 ∷ (speed ++ distance)

small-FitsChar : (signed : Bool) (n : ℕ) → n < 128 → FitsChar signed n
small-FitsChar signed n h = ground arith

split_first : (n : ℕ) (xs ys zs : List ℕ) → length xs ≡ n → take n ((xs ++ ys) ++ zs) ≡ xs
split_first n xs ys zs e =
    subst (λ k. take k ((xs ++ ys) ++ zs) ≡ xs) e (rw append_assoc (take-front xs (ys ++ zs)))

split_second :
    (m n : ℕ) (xs ys zs : List ℕ)
    → length xs ≡ m
    → length ys ≡ n
    → take n (drop m ((xs ++ ys) ++ zs)) ≡ ys
split_second m n xs ys zs e f =
    subst (λ k. take n (drop k ((xs ++ ys) ++ zs)) ≡ ys) e
      (rw (append_assoc, drop-front xs (ys ++ zs))
        (subst (λ k. take k (ys ++ zs) ≡ ys) f (take-front ys zs)))

module _ {D : Type 0} (d : Double D) (env : Env) (p : Platform D) where
  do_move-split :
      (speed distance tail : List ℕ) (c : Control D)
      → length speed ≡ 8
      → length distance ≡ 8
      → do_move d env p ((speed ++ distance) ++ tail) c ≡ (do
        (r, axis, w) ← axis_set_speed d c.x_axis (p.double_of speed) c.world
        (r', axis', w') ← axis_move d env axis (p.double_of distance) w
        some (success, record c { x_axis = axis'; world = w' }))
  unfolding do_move
  do_move-split speed distance tail c s t =
      rw (split_first 8 speed distance tail s, split_second 8 8 speed distance tail s t) refl

  decode_message-move :
      (speed distance tail : List ℕ) (c : Control D) (r r' : ℤ) (axis axis' : Option (Axis D))
      (w w' : World)
      → length speed ≡ 8
      → length distance ≡ 8
      → axis_set_speed d c.x_axis (p.double_of speed) c.world ≡ some (r, axis, w)
      → axis_move d env axis (p.double_of distance) w ≡ some (r', axis', w')
      → decode_message d env p (move_message speed distance ++ tail) c
        ≡ some (success, record c { x_axis = axis'; world = w' })
  unfolding decode_message run_cmd
  decode_message-move speed distance tail c r r' axis axis' w w' s t sets moves =
      do_move-split speed distance tail c s t ∙ rw (sets, moves) refl

  -- A message CMD_MOVE, in whatever pieces it comes to the first socket that is ready, with the emergency
  -- stop not pressed: the round sets the speed of the axis to the number in its bytes 2 to 9 and moves the
  -- axis by the number in its bytes 10 to 17, whatever the first of these calls returned, and goes on.
  pub main_round-move :
      (is_set : ℤ → Bool) (c : Control D) (fd : ℤ) (pieces : List (List ℕ)) (more : List Read)
      (buff speed distance : List ℕ) (r r' : ℤ) (axis axis' : Option (Axis D)) (w w' : World)
      → is_set c.e_stop_fd ≡ false
      → first_ready is_set (socket_list c) ≡ fd
      → c.inputs fd ≡ arriving pieces ++ more
      → NoneEmpty pieces
      → joined pieces ≡ move_message speed distance
      → length speed ≡ 8
      → length distance ≡ 8
      → length buff ≡ 256
      → axis_set_speed d c.x_axis (p.double_of speed) c.world ≡ some (r, axis, w)
      → axis_move d env axis (p.double_of distance) w ≡ some (r', axis', w')
      → main_round d env p (selected is_set) c buff
        ≡ next (record (unread fd more c) { x_axis = axis'; world = w' }) (received pieces buff)
  main_round-move is_set c fd pieces more buff speed distance r r' axis axis' w w' off first i e j s
        t b sets moves =
      let size : length (joined pieces) ≡ 18 = rw j (omega (arith, length-append speed distance)) in
      main_round-message d env p is_set c fd pieces more buff off first i e (rw (size, j) refl)
        (rw size (small-FitsChar p.char_signed 18 (omega arith))) (omega arith)
      ∙ ap (λ x. decoded (received pieces buff) x)
          (subst
            (λ m.
              decode_message d env p (m ++ (0 ∷ drop (suc (length (joined pieces))) buff))
                (unread fd more c)
              ≡ some (success, record (unread fd more c) { x_axis = axis'; world = w' }))
            (sym j)
            (decode_message-move speed distance (0 ∷ drop (suc (length (joined pieces))) buff)
              (unread fd more c) r r' axis axis' w w' s t sets moves))
