-- ===== src/Ipc/UsageLaws.antt =====
-- control/src/ipc.c: the listener over any sequence of calls.
use cnc_robot_control.Common.{
  zero, suc, ◌≡◌, ◌≢◌, ◌∙◌, refl, ap, Bool-cases, inl, inr, true, false, not, List, [], ◌∷◌, arith,
  if◌then◌else◌,
}
use cnc_robot_control.Common.Int.{ℤ, pos, negsuc}
use cnc_robot_control.Ipc.Listener.{
  socket, bind, listen, Os, Sockets, call, is_negative, is_positive, destroy_socket, init_listener,
  accept_on, accept_if, remove_file, wait_connection, close_listener,
}
use cnc_robot_control.Ipc.ListenerLaws.{
  Tracks, left_open, holds-if, listener-Tracks, close_listener-Tracks,
}
use cnc_robot_control.Stepper.Values.{success, failure}

-- Uses of the listener, one after the other.
pub data Usage : Type 0 where
  connects disconnects : Usage

abbrev pub used : Sockets → Os → List Usage → Os
used s o [] = o
used s o (connects ∷ us) = used s (wait_connection s o).1 us
used s o (disconnects ∷ us) = used s (close_listener o) us

-- Before the first call.
abbrev pub unused : Os
unused = record { listener_fd = failure; calls = [] }

abbrev NotZero : ℤ × Os → Type 0
NotZero (r, o) = o.listener_fd ≢ pos 0

failure_not_zero : failure ≢ pos 0
failure_not_zero e = absurd (ground (arith, e))

not_positive : (z : ℤ) → is_positive z ≡ false → z ≢ pos 0 → is_negative z ≡ true
not_positive (pos zero) e h = absurd (h refl)
not_positive (pos (suc n)) e h = ground (arith, e)
not_positive (negsuc n) e h = refl

negative_not_positive : (z : ℤ) → is_negative z ≡ true → is_positive z ≡ false
negative_not_positive (pos n) e = ground (arith, e)
negative_not_positive (negsuc n) e = refl

module _ (s : Sockets) (taken : (o : Os) → s.socket_fd o ≢ pos 0) where
  init_listener-NotZero : (o : Os) → NotZero (init_listener s o)
  unfolding init_listener
  init_listener-NotZero o =
      let fd = s.socket_fd o in
      let made = record (call (socket fd) o) { listener_fd = fd } in
      let bound = call (bind fd) made in
      let listening = call (listen fd) bound in
      let inner =
        if not (s.listen_ok bound) then destroy_socket listening else (success, listening) in
      let outer = if not (s.bind_ok made) then destroy_socket bound else inner in
      holds-if NotZero (is_negative fd) (failure, made) outer (λ _. taken o)
        (λ _.
          holds-if NotZero (not (s.bind_ok made)) (destroy_socket bound) inner
            (λ _. failure_not_zero)
            (λ _.
              holds-if NotZero (not (s.listen_ok bound)) (destroy_socket listening)
                (success, listening) (λ _. failure_not_zero) (λ _. taken o)))

  wait_connection-NotZero : (o : Os) → o.listener_fd ≢ pos 0 → NotZero (wait_connection s o)
  unfolding wait_connection
  wait_connection-NotZero o h =
      let (r, o') = init_listener s (remove_file s o) in
      let n = init_listener-NotZero (remove_file s o) in
      holds-if NotZero (is_negative o.listener_fd) (accept_if s (r, o')) (accept_on s o)
        (λ _. holds-if NotZero (is_negative r) (failure, o') (accept_on s o') (λ _. n) (λ _. n))
        (λ _. h)

  close_listener-NotZero : (o : Os) → o.listener_fd ≢ pos 0 → (close_listener o).listener_fd ≢ pos 0
  unfolding close_listener
  close_listener-NotZero o h = elim (Bool-cases (is_positive o.listener_fd)) [
    | inl e ↦ rw e failure_not_zero
    | inr e ↦ rw e h
  ]

  used-Tracks :
      (us : List Usage) (o : Os)
      → Tracks o
      → o.listener_fd ≢ pos 0
      → Tracks (used s o us) × ((used s o us).listener_fd ≢ pos 0)
  used-Tracks [] o t h = (t, h)
  used-Tracks (connects ∷ us) o t h =
      used-Tracks us (wait_connection s o).1 (listener-Tracks s o t).0.0
        (wait_connection-NotZero o h)
  used-Tracks (disconnects ∷ us) o t h =
      used-Tracks us (close_listener o) (close_listener-Tracks o t) (close_listener-NotZero o h)

closed_negative :
    (o : Os) → o.listener_fd ≢ pos 0 → is_negative (close_listener o).listener_fd ≡ true
unfolding close_listener
closed_negative o h = elim (Bool-cases (is_positive o.listener_fd)) [
  | inl e ↦ rw e refl
  | inr e ↦ rw e (not_positive o.listener_fd e h)
]

closed_again : (o : Os) → is_negative o.listener_fd ≡ true → close_listener o ≡ o
unfolding close_listener
closed_again o e = rw (negative_not_positive o.listener_fd e) refl

-- The system gives no socket the descriptor 0. However calls of `wait_connection` and `close_listener`
-- have alternated since the start, and whatever the system answered: behind a last `close_listener` no
-- socket that a call of `socket` has made is open, and one more `close_listener` does nothing.
pub close_listener-closes :
    (s : Sockets) (us : List Usage)
    → ((o : Os) → s.socket_fd o ≢ pos 0)
    → (left_open [] (close_listener (used s unused us)).calls ≡ [])
      × (close_listener (close_listener (used s unused us)) ≡ close_listener (used s unused us))
close_listener-closes s us taken =
    let o = used s unused us in
    let (t, h) = used-Tracks s taken us unused refl failure_not_zero in
    let shut = closed_negative o h in
    (
      close_listener-Tracks o t
          ∙ ap (λ b. if b then [] else (close_listener o).listener_fd ∷ []) shut,
      closed_again (close_listener o) shut,
    )
