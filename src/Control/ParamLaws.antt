-- ===== src/Control/ParamLaws.antt =====
-- control/src/control.c: the command that passes parameters on to other processes.
use cnc_robot_control.Common.{
  take-front, ℕ, zero, suc, ◌<◌, ◌≡◌, ◌∙◌, refl, ap, Bool, true, false, ◌||◌, List, [], ◌∷◌, ◌++◌,
  append_assoc, append-nil, some, arith, leb, ◌==◌, if◌then◌else◌, length, length-append, get_elem?,
  drop,
}
use cnc_robot_control.Common.Int.{ℤ, pos}
use cnc_robot_control.Axis.Double.{Double}
use cnc_robot_control.Control.Loop.{selected, next, decoded, socket_list, main_round}
use cnc_robot_control.Control.LoopLaws.{first_ready, unread, received, main_round-message}
use cnc_robot_control.Control.Message.{Read}
use cnc_robot_control.Control.Program.{
  Control, Platform, char_value, send, send_if, run_cmd, decode_message,
}
use cnc_robot_control.Control.ReadLaws.{joined, arriving, NoneEmpty, FitsChar}
use cnc_robot_control.Ipc.Listener.{SysCall, write}
use cnc_robot_control.Stepper.Values.{success}
use cnc_robot_control.Stepper.World.{Env}

-- The message with its destination in byte 31, and the writes that pass it on: to lidar for 0 and 1, to
-- zed for 0 and 2.
pub record IsParams (m : List ℕ) (dest : ℕ) : Type 0 where
  pub size : get_elem? m 0 ≡ some (length m)
  pub command : get_elem? m 1 ≡ some 5
  pub destination : get_elem? m 31 ≡ some dest

abbrev pub passed_on : {D : Type 0} → ℕ → List ℕ → Control D → List SysCall
passed_on dest m c =
    (if dest == 1 || dest == 0 then write c.lidar_socket m ∷ [] else [])
    ++ (if dest == 2 || dest == 0 then write c.zed_socket m ∷ [] else [])

abbrev pub with_calls : {D : Type 0} → List SysCall → Control D → Control D
with_calls calls c = record c { os = record c.os { calls = c.os.calls ++ calls } }

get_elem?-append :
    (xs ys : List ℕ) (i b : ℕ) → get_elem? xs i ≡ some b → get_elem? (xs ++ ys) i ≡ some b
get_elem?-append [] ys i b e = absurd (ground (arith, e))
get_elem?-append (x ∷ xs) ys zero b e = e
get_elem?-append (x ∷ xs) ys (suc i) b e = get_elem?-append xs ys i b e

char_value-fits : (signed : Bool) (n : ℕ) → FitsChar signed n → char_value signed n ≡ pos n
char_value-fits signed n f = rw f refl

module _ {D : Type 0} where
  send_if-front :
      (b : Bool) (fd : ℤ) (m tail : List ℕ) (c : Control D)
      → send_if b fd (m ++ tail) (pos (length m)) c
        ≡ some (with_calls (if b then write fd m ∷ [] else []) c)
  unfolding send
  send_if-front true fd m tail c =
      let fits : leb (length m) (length (m ++ tail)) ≡ true =
        ground (arith, length-append m tail) in
      rw (fits, take-front m tail) refl
  send_if-front false fd m tail c = rw append-nil refl

module _ {D : Type 0} (d : Double D) (env : Env) (p : Platform D) where
  decode_message-params :
      (m tail : List ℕ) (dest : ℕ) (c : Control D)
      → IsParams m dest
      → FitsChar p.char_signed (length m)
      → decode_message d env p (m ++ tail) c ≡ some (success, with_calls (passed_on dest m c) c)
  unfolding decode_message run_cmd
  decode_message-params m tail dest c is f =
      rw
        (
          get_elem?-append m tail 0 (length m) is.size,
          get_elem?-append m tail 1 5 is.command,
          char_value-fits p.char_signed (length m) f,
          get_elem?-append m tail 31 dest is.destination,
          send_if-front (dest == 1 || dest == 0) c.lidar_socket m tail c,
          send_if-front (dest == 2 || dest == 0) c.zed_socket m tail
              (with_calls (if dest == 1 || dest == 0 then write c.lidar_socket m ∷ [] else []) c),
        )
        (simp append_assoc)

  -- A message CMD_PARAMS, in whatever pieces it comes to the first socket that is ready, with the
  -- emergency stop not pressed: the round writes the bytes of the message, all of them and no others, to
  -- the sockets that byte 31 names, and does nothing else.
  pub main_round-params :
      (is_set : ℤ → Bool) (c : Control D) (fd : ℤ) (pieces : List (List ℕ)) (more : List Read)
      (buff : List ℕ) (dest : ℕ)
      → is_set c.e_stop_fd ≡ false
      → first_ready is_set (socket_list c) ≡ fd
      → c.inputs fd ≡ arriving pieces ++ more
      → NoneEmpty pieces
      → IsParams (joined pieces) dest
      → FitsChar p.char_signed (length (joined pieces))
      → length (joined pieces) < length buff
      → main_round d env p (selected is_set) c buff
        ≡ next
            (with_calls (passed_on dest (joined pieces) c) (unread fd more c))
            (received pieces buff)
  main_round-params is_set c fd pieces more buff dest off first i e is f l =
      main_round-message d env p is_set c fd pieces more buff off first i e is.size f l
      ∙ ap (λ x. decoded (received pieces buff) x)
          (decode_message-params (joined pieces) (0 ∷ drop (suc (length (joined pieces))) buff) dest
            (unread fd more c) is f)
