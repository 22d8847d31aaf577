-- ===== src/Control/DecodeLaws.antt =====
-- control/src/control.c: what every command of `decode_message` leaves as it was, and what it returns.
use mathlib.Core.Path.{subst}
use cnc_robot_control.Common.{
  take-long, Always, ℕ, ◌≡◌, ◌∙◌, refl, Bool, true, false, ◌||◌, List, Option, none, some, arith,
  leb, Option-cases, Bool-cases, inl, inr, ◌==◌, if◌then◌else◌, length, get_elem?, take, drop,
}
use cnc_robot_control.Common.Int.{ℤ, pos, negsuc, ◌>>=◌}
use cnc_robot_control.Axis.Double.{Double}
use cnc_robot_control.Axis.Motion.{
  axis_get_position, axis_move, axis_set_speed, axis_stop, axis_wait,
}
use cnc_robot_control.Axis.Object.{Axis}
use cnc_robot_control.Ipc.Listener.{SysCall, call, write}
use cnc_robot_control.Control.Program.{
  Control, Platform, Cmd, cmd_move, cmd_stop, cmd_finish, cmd_getpos, cmd_params, cmd_of,
  char_value, send, send_if, getpos_response, do_move, do_getpos, do_stop, do_wait, run_cmd,
  decode_message,
}
use cnc_robot_control.Stepper.Values.{success, failure}
use cnc_robot_control.Stepper.World.{World, Env}

-- The descriptors and what is still to be read are the same in both, and so is the flag `stop`, unless
-- it is set for the end.
pub record Kept {D : Type 0} (ends : Bool) (c c' : Control D) : Type 0 where
  pub zed : c'.zed_socket ≡ c.zed_socket
  pub lidar : c'.lidar_socket ≡ c.lidar_socket
  pub flask : c'.flask_socket ≡ c.flask_socket
  pub e_stop : c'.e_stop_fd ≡ c.e_stop_fd
  pub stopping : c'.stop ≡ (ends || c.stop)
  pub unread : c'.inputs ≡ c.inputs
  pub listener : c'.os.listener_fd ≡ c.os.listener_fd

abbrev pub ends_program : Cmd → Bool
ends_program cmd_finish = true
ends_program cmd = false

-- A result and what it leaves.
abbrev pub Obeyed : {D : Type 0} → Bool → Control D → ℤ × Control D → Type 0
Obeyed ends c (r, c') = (r ≡ success) × Kept ends c c'

leb_refl : (n : ℕ) → leb n n ≡ true
leb_refl n = ground arith

module _ {D : Type 0} where
  kept :
      {c : Control D} {axis : Option (Axis D)} {w : World} {cs : List SysCall}
      → Kept false c (record c { x_axis = axis; world = w; os = record c.os { calls = cs } })
  kept = record {
    zed = refl;
    lidar = refl;
    flask = refl;
    e_stop = refl;
    stopping = refl;
    unread = refl;
    listener = refl;
  }

  Kept-then : {c c' c'' : Control D} → Kept false c c' → Kept false c' c'' → Kept false c c''
  Kept-then k l = record {
    zed = l.zed ∙ k.zed;
    lidar = l.lidar ∙ k.lidar;
    flask = l.flask ∙ k.flask;
    e_stop = l.e_stop ∙ k.e_stop;
    stopping = l.stopping ∙ k.stopping;
    unread = l.unread ∙ k.unread;
    listener = l.listener ∙ k.listener;
  }

  pub send-all :
      (fd : ℤ) (bytes : List ℕ) (c : Control D)
      → send fd bytes (pos (length bytes)) c ≡ some (record c { os = call (write fd bytes) c.os })
  unfolding send
  send-all fd bytes c =
      rw (leb_refl (length bytes), take-long (length bytes) bytes (omega arith)) refl

  send_if-Kept :
      (b : Bool) (fd n : ℤ) (bytes : List ℕ) (c : Control D)
      → Always (λ c'. Kept false c c') (send_if b fd bytes n c)
  unfolding send
  send_if-Kept false fd n bytes c = kept
  send_if-Kept true fd (negsuc n) bytes c = tt
  send_if-Kept true fd (pos n) bytes c = elim (Bool-cases (leb n (length bytes))) [
    | inl l ↦ rw l kept
    | inr l ↦ rw l tt
  ]

module _ {D : Type 0} (d : Double D) (env : Env) (p : Platform D) where
  do_move-Obeyed :
      (bytes : List ℕ) (c : Control D) → Always (λ x. Obeyed false c x) (do_move d env p bytes c)
  unfolding do_move
  do_move-Obeyed bytes c =
      elim (Option-cases (axis_set_speed d c.x_axis (p.double_of (take 8 bytes)) c.world)) [
        | inl e ↦ rw e tt
        | inr (a, e) ↦
            elim (Option-cases (axis_move d env a.1 (p.double_of (take 8 (drop 8 bytes))) a.2)) [
              | inl e' ↦ rw (e, e') tt
              | inr (a', e') ↦ rw (e, e') (refl, kept)
            ]
      ]

  do_getpos-Obeyed : (c : Control D) → Always (λ x. Obeyed false c x) (do_getpos d env p c)
  unfolding do_getpos
  do_getpos-Obeyed c = elim (Option-cases (axis_get_position d c.x_axis c.world)) [
    | inl e ↦ rw e tt
    | inr (a, e) ↦
        rw
          (e, send-all c.zed_socket (getpos_response p a.0 (p.clock c)) (record c { x_axis = a.1 }))
          (refl, kept)
  ]

  do_stop-Kept : (c : Control D) → Always (λ x. Kept false c x) (do_stop d env p c)
  unfolding do_stop
  do_stop-Kept c = elim (Option-cases (axis_stop c.x_axis c.world)) [
    | inl e ↦ rw e tt
    | inr (a, e) ↦ rw e kept
  ]

  do_wait-Kept : (c : Control D) → Always (λ x. Kept false c x) (do_wait d env p c)
  unfolding do_wait
  do_wait-Kept c = elim (Option-cases (axis_wait c.x_axis c.world)) [
    | inl e ↦ rw e tt
    | inr (a, e) ↦ rw e kept
  ]

  pub ending : (c c' : Control D) → Kept false c c' → Kept true c (record c' { stop = true })
  ending c c' k = record {
    zed = k.zed;
    lidar = k.lidar;
    flask = k.flask;
    e_stop = k.e_stop;
    stopping = refl;
    unread = k.unread;
    listener = k.listener;
  }

  do_finish-Obeyed :
      (o : Option (Control D)) (c : Control D)
      → Always (λ x. Kept false c x) o
      → Always (λ x. Obeyed true c x) (o >>= λ c'. some (success, record c' { stop = true }))
  do_finish-Obeyed none c k = tt
  do_finish-Obeyed (some c') c k = (refl, ending c c' k)

  do_then-Obeyed :
      (o : Option (Control D)) (c : Control D)
      → Always (λ x. Kept false c x) o
      → Always (λ x. Obeyed false c x) (o >>= λ c'. some (success, c'))
  do_then-Obeyed none c k = tt
  do_then-Obeyed (some c') c k = (refl, k)

  send_then-Obeyed :
      (o : Option (Control D)) (f : Control D → Option (Control D)) (c : Control D)
      → Always (λ x. Kept false c x) o
      → ((c' : Control D) → Always (λ x. Kept false c' x) (f c'))
      → Always (λ x. Obeyed false c x) (o >>= λ c'. f c' >>= λ c''. some (success, c''))
  send_then-Obeyed none f c k h = tt
  send_then-Obeyed (some c') f c k h = elim (Option-cases (f c')) [
    | inl e ↦ rw e tt
    | inr (c'', e) ↦
        rw e (refl, Kept-then k (subst (λ o. Always (λ x. Kept false c' x) o) e (h c')))
  ]

  finish_call-Kept :
      (b : Bool) (c : Control D)
      → Always (λ x. Kept false c x) (if b then do_wait d env p c else do_stop d env p c)
  finish_call-Kept true c = do_wait-Kept c
  finish_call-Kept false c = do_stop-Kept c

  run_cmd-Obeyed :
      (cmd : Cmd) (msg : List ℕ) (n : ℤ) (c : Control D)
      → Always (λ x. Obeyed (ends_program cmd) c x) (run_cmd d env p (some cmd) msg n c)
  unfolding run_cmd
  run_cmd-Obeyed cmd_move msg n c = do_move-Obeyed (drop 2 msg) c
  run_cmd-Obeyed cmd_stop msg n c = do_then-Obeyed (do_stop d env p c) c (do_stop-Kept c)
  run_cmd-Obeyed cmd_finish msg n c = elim (Option-cases (get_elem? msg 2)) [
    | inl e ↦ rw e tt
    | inr (flag, e) ↦ rw e (
        do_finish-Obeyed (if flag == 0 then do_wait d env p c else do_stop d env p c) c
          (finish_call-Kept (flag == 0) c))
  ]
  run_cmd-Obeyed cmd_getpos msg n c = do_getpos-Obeyed c
  run_cmd-Obeyed cmd_params msg n c = elim (Option-cases (get_elem? msg 31)) [
    | inl e ↦ rw e tt
    | inr (dest, e) ↦ rw e (
        send_then-Obeyed (send_if (dest == 1 || dest == 0) c.lidar_socket msg n c)
          (λ c'. send_if (dest == 2 || dest == 0) c.zed_socket msg n c') c
          (send_if-Kept (dest == 1 || dest == 0) c.lidar_socket n msg c)
          (λ c'. send_if-Kept (dest == 2 || dest == 0) c.zed_socket n msg c'))
  ]

  -- The result of a message by its command: -1 and no change for an unknown one.
  abbrev pub Told : Option Cmd → Control D → ℤ × Control D → Type 0
  Told none c (r, c') = (r ≡ failure) × (c' ≡ c)
  Told (some cmd) c x = Obeyed (ends_program cmd) c x

  run_cmd-Told :
      (o : Option Cmd) (msg : List ℕ) (n : ℤ) (c : Control D)
      → Always (λ x. Told o c x) (run_cmd d env p o msg n c)
  unfolding run_cmd
  run_cmd-Told none msg n c = (refl, refl)
  run_cmd-Told (some cmd) msg n c = run_cmd-Obeyed cmd msg n c

  -- Whenever `decode_message` comes back, its result depends on the command alone: 0 for each of the five
  -- commands, whatever the functions of the axis returned, and -1 for any other, with nothing changed. A
  -- command changes no descriptor and nothing that is still to be read, and only CMD_FINISH sets `stop`.
  pub decode_message-Told :
      (msg : List ℕ) (cmd : ℕ) (c : Control D)
      → get_elem? msg 1 ≡ some cmd
      → Always (λ x. Told (cmd_of cmd) c x) (decode_message d env p msg c)
  unfolding decode_message
  decode_message-Told msg cmd c e = elim (Option-cases (get_elem? msg 0)) [
    | inl e' ↦ rw e' tt
    | inr (b, e') ↦ rw (e', e) (run_cmd-Told (cmd_of cmd) msg (char_value p.char_signed b) c)
  ]
