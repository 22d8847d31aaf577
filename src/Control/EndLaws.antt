-- ===== src/Control/EndLaws.antt =====
-- control/src/control.c: how the loop of `main` ends, and what is closed then.
use cnc_robot_control.Common.{
  Always, ℕ, zero, suc, ◌++◌, append_assoc, ◌≡◌, ◌∙◌, refl, ap, Bool, true, false, List, [], ◌∷◌,
  Option, none, some, if◌then◌else◌, get_elem?, Bool-cases, Option-cases, inl, inr,
}
use cnc_robot_control.Common.Int.{ℤ, pos, negsuc}
use cnc_robot_control.Axis.Double.{Double}
use cnc_robot_control.Control.DecodeLaws.{Kept, Told, ends_program, decode_message-Told}
use cnc_robot_control.Control.Loop.{
  Select, select_failed, interrupted, selected, Round, next, in_read, undefined, Run, ended,
  in_select, ready_socket, halted, socket_list, decoded, cleanup, handle_message, main_round,
  after_round, main_loop,
}
use cnc_robot_control.Control.Message.{Read, Reading, returned, waiting, faulted, read_message}
use cnc_robot_control.Control.Program.{Control, Platform, Cmd, cmd_of, decode_message}
use cnc_robot_control.Ipc.Listener.{Os, SysCall, call, close, unlink, close_listener, is_negative}
use cnc_robot_control.Stepper.Values.{eq_ℤ}
use cnc_robot_control.Stepper.World.{Env}

-- The same sockets.
abbrev pub SameSockets : {D : Type 0} → Control D → Control D → Type 0
SameSockets c c' =
    (c'.lidar_socket ≡ c.lidar_socket)
    × (c'.zed_socket ≡ c.zed_socket)
    × (c'.flask_socket ≡ c.flask_socket)
    × (c'.e_stop_fd ≡ c.e_stop_fd)
    × (c'.os.listener_fd ≡ c.os.listener_fd)

-- The calls that end a listener with this descriptor, and the descriptor behind them.
abbrev pub released : ℤ → List SysCall
released (pos zero) = []
released (pos (suc n)) = close (pos (suc n)) ∷ unlink ∷ []
released (negsuc n) = []

abbrev pub gone : ℤ → ℤ
gone (pos zero) = pos 0
gone (pos (suc n)) = negsuc 0
gone (negsuc n) = negsuc n

abbrev pub end_calls : {D : Type 0} → Control D → List SysCall
end_calls c =
    close c.lidar_socket ∷ close c.zed_socket ∷ close c.flask_socket ∷ released c.os.listener_fd

-- What is left of the program when it ends: only the flag, the listener and the calls are new.
abbrev pub finished : {D : Type 0} → Control D → Control D
finished c = record c {
  stop = true;
  os = record { listener_fd = gone c.os.listener_fd; calls = c.os.calls ++ end_calls c };
}

close_all :
    (l z f fd : ℤ) (cs : List SysCall)
    → close_listener
        (call (close f) (call (close z) (call (close l) (record { listener_fd = fd; calls = cs }))))
      ≡ record { listener_fd = gone fd; calls = cs ++ close l ∷ close z ∷ close f ∷ released fd }
unfolding close_listener
close_all l z f (pos zero) cs = simp append_assoc refl
close_all l z f (pos (suc n)) cs = simp append_assoc refl
close_all l z f (negsuc n) cs = simp append_assoc refl

abbrev pub RoundKeeps : {D : Type 0} → Control D → Round D → Type 0
RoundKeeps c (next c' msg) = SameSockets c c'
RoundKeeps c in_read = Unit
RoundKeeps c undefined = Unit

module _ {D : Type 0} where
  same-then : (c c' c'' : Control D) → SameSockets c c' → SameSockets c' c'' → SameSockets c c''
  same-then c c' c'' (l, z, f, e, o) (l', z', f', e', o') = (l' ∙ l, z' ∙ z, f' ∙ f, e' ∙ e, o' ∙ o)

  halted-same :
      (b : Bool) (c c' : Control D) → SameSockets c c' → SameSockets c (if b then halted c' else c')
  halted-same true c c' k = k
  halted-same false c c' k = k

  keeps-unread :
      (c : Control D) (i : ℤ → List Read) (r : Round D)
      → RoundKeeps (record c { inputs = i }) r
      → RoundKeeps c r
  keeps-unread c i (next c' msg) k = k
  keeps-unread c i in_read k = tt
  keeps-unread c i undefined k = tt

  Kept-same : (b : Bool) (c c' : Control D) → Kept b c c' → SameSockets c c'
  Kept-same b c c' k = (k.lidar, k.zed, k.flask, k.e_stop, k.listener)

module _ {D : Type 0} (d : Double D) (env : Env) (p : Platform D) where
  Told-same :
      (o : Option Cmd) (c : Control D) (x : ℤ × Control D) → Told d env p o c x → SameSockets c x.1
  Told-same none c (r, c') (e, k) = rw k (refl, refl, refl, refl, refl)
  Told-same (some cmd) c (r, c') (e, k) = Kept-same (ends_program cmd) c c' k

  decoded-keeps :
      (cmd : ℕ) (msg : List ℕ) (c : Control D) (o : Option (ℤ × Control D))
      → Always (λ x. Told d env p (cmd_of cmd) c x) o
      → RoundKeeps c (decoded msg o)
  decoded-keeps cmd msg c none a = tt
  decoded-keeps cmd msg c (some (r, c')) a =
      halted-same (is_negative r) c c' (Told-same (cmd_of cmd) c (r, c') a)

  decode-short :
      (msg : List ℕ) (c : Control D) → get_elem? msg 1 ≡ none → decode_message d env p msg c ≡ none
  unfolding decode_message
  decode-short msg c e = elim (Option-cases (get_elem? msg 0)) [
    | inl e' ↦ rw e' refl
    | inr (b, e') ↦ rw (e', e) refl
  ]

  decode-keeps :
      (msg : List ℕ) (c : Control D) → RoundKeeps c (decoded msg (decode_message d env p msg c))
  decode-keeps msg c = elim (Option-cases (get_elem? msg 1)) [
    | inl e ↦ rw (decode-short msg c e) tt
    | inr (cmd, e) ↦
        decoded-keeps cmd msg c (decode_message d env p msg c)
          (decode_message-Told d env p msg cmd c e)
  ]

  handle-keeps :
      (c : Control D) (fd : ℤ) (r : Reading) → RoundKeeps c (handle_message d env p c fd r)
  unfolding handle_message
  handle-keeps c fd waiting = tt
  handle-keeps c fd faulted = tt
  handle-keeps c fd (returned r msg reads) = elim (Bool-cases (is_negative r)) [
    | inl e ↦ rw e (refl, refl, refl, refl, refl)
    | inr e ↦ rw e (
        keeps-unread c (λ x. if eq_ℤ fd x then reads else c.inputs x)
          (decoded msg (
            decode_message d env p msg
              (record c { inputs = λ x. if eq_ℤ fd x then reads else c.inputs x })))
          (decode-keeps msg (record c { inputs = λ x. if eq_ℤ fd x then reads else c.inputs x })))
  ]

  pub main_round-keeps :
      (s : Select) (c : Control D) (buff : List ℕ) → RoundKeeps c (main_round d env p s c buff)
  unfolding main_round
  main_round-keeps select_failed c buff = (refl, refl, refl, refl, refl)
  main_round-keeps interrupted c buff = (refl, refl, refl, refl, refl)
  main_round-keeps (selected is_set) c buff = elim (Bool-cases (is_set c.e_stop_fd)) [
    | inl e ↦ rw e (refl, refl, refl, refl, refl)
    | inr e ↦ rw e (
        handle-keeps c (ready_socket is_set (socket_list c) (pos 0)) (
          read_message p.char_signed (c.inputs (ready_socket is_set (socket_list c) (pos 0))) buff))
  ]

  -- The program has ended with its flag set, and the last of its calls were those that end it.
  abbrev pub Closed : Control D → Run D → Type 0
  Closed c (ended c') = (c'.stop ≡ true) × (cs : List SysCall) × (c'.os.calls ≡ cs ++ end_calls c)
  Closed c r = Unit

  pub cleanup-finished : (c : Control D) → cleanup (halted c) ≡ finished c
  unfolding cleanup
  cleanup-finished c =
      ap (λ (o : Os). record c { stop = true; os = o })
        (close_all c.lidar_socket c.zed_socket c.flask_socket c.os.listener_fd c.os.calls)

  pub cleanup-calls : (c : Control D) → (cleanup c).os.calls ≡ c.os.calls ++ end_calls c
  unfolding cleanup
  cleanup-calls c =
      ap (λ (o : Os). o.calls)
        (close_all c.lidar_socket c.zed_socket c.flask_socket c.os.listener_fd c.os.calls)

  cleanup-Closed :
      (c c' : Control D) → SameSockets c c' → c'.stop ≡ true → Closed c (ended (cleanup c'))
  unfolding cleanup
  cleanup-Closed c c' (l, z, f, _, o) e = (e, c'.os.calls, cleanup-calls c' ∙ rw (l, z, f, o) refl)

  round-Closed :
      (c c' : Control D) (r : Round D) (more : Control D → List ℕ → Run D)
      → SameSockets c c'
      → RoundKeeps c' r
      → ((c'' : Control D) (msg : List ℕ) → SameSockets c c'' → Closed c (more c'' msg))
      → Closed c (after_round r more)
  unfolding after_round
  round-Closed c c' (next c'' msg) more s k h = h c'' msg (same-then c c' c'' s k)
  round-Closed c c' in_read more s k h = tt
  round-Closed c c' undefined more s k h = tt

  choose-Closed :
      (c : Control D) (b : Bool) (x y : Run D)
      → (b ≡ true → Closed c x)
      → Closed c y
      → Closed c (if b then x else y)
  choose-Closed c true x y h k = h refl
  choose-Closed c false x y h k = k

  loop-Closed :
      (ss : List Select) (c c' : Control D) (buff : List ℕ)
      → SameSockets c c'
      → Closed c (main_loop d env p ss c' buff)
  unfolding main_loop
  loop-Closed [] c c' buff s =
      choose-Closed c c'.stop (ended (cleanup c')) (in_select c') (cleanup-Closed c c' s) tt
  loop-Closed (x ∷ ss) c c' buff s =
      let more = λ (c'' : Control D) (msg : List ℕ). main_loop d env p ss c'' msg in
      choose-Closed c c'.stop (ended (cleanup c')) (after_round (main_round d env p x c' buff) more)
        (cleanup-Closed c c' s)
        (round-Closed c c' (main_round d env p x c' buff) more s (main_round-keeps x c' buff)
          (λ c'' msg t. loop-Closed ss c c'' msg t))

  -- However the calls of `select` come back and whatever messages arrive: if the program ends, its flag is
  -- set, and the last that it has asked of the system is to close the lidar, zed and flask sockets that
  -- it began with, in this order, and then its listener, with the backing file removed. A listener with
  -- the descriptor 0 is not closed.
  pub main_loop-Closed :
      (ss : List Select) (c : Control D) (buff : List ℕ) → Closed c (main_loop d env p ss c buff)
  main_loop-Closed ss c buff = loop-Closed ss c c buff (refl, refl, refl, refl, refl)
