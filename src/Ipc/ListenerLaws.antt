-- ===== src/Ipc/ListenerLaws.antt =====
-- control/src/ipc.c: the listener's descriptor, against the calls that were made of the system.
use cnc_robot_control.Common.{
  ◌≡◌, ◌∙◌, refl, ap, Bool, Bool-cases, inl, inr, true, false, not, List, [], ◌∷◌, ◌++◌, arith,
  if◌then◌else◌,
}
use cnc_robot_control.Common.Int.{ℤ, pos, negsuc}
use cnc_robot_control.Ipc.Listener.{
  SysCall, access, unlink, socket, bind, listen, accept, close, Os, Sockets, call, is_negative,
  is_positive, destroy_socket, init_listener, accept_on, accept_if, remove_file, wait_connection,
  close_listener,
}
use cnc_robot_control.Stepper.Values.{success, failure, eq_ℤ}

-- The sockets that calls have made and not closed.
abbrev pub without : ℤ → List ℤ → List ℤ
without fd [] = []
without fd (x ∷ xs) = if eq_ℤ x fd then xs else x ∷ without fd xs

abbrev pub after_call : List ℤ → SysCall → List ℤ
after_call fds (socket fd) = if is_negative fd then fds else fd ∷ fds
after_call fds (close fd) = without fd fds
after_call fds c = fds

abbrev pub left_open : List ℤ → List SysCall → List ℤ
left_open fds [] = fds
left_open fds (c ∷ cs) = left_open (after_call fds c) cs

left_open-append :
    (fds : List ℤ) (cs : List SysCall) (c : SysCall)
    → left_open fds (cs ++ c ∷ []) ≡ after_call (left_open fds cs) c
left_open-append fds [] c = refl
left_open-append fds (x ∷ cs) c = left_open-append (after_call fds x) cs c

eq_ℤ-refl : (z : ℤ) → eq_ℤ z z ≡ true
eq_ℤ-refl (pos n) = ground arith
eq_ℤ-refl (negsuc n) = ground arith

-- The socket of a descriptor, if it is one.
abbrev pub held : ℤ → List ℤ
held fd = if is_negative fd then [] else fd ∷ []

without-held : (fd : ℤ) → without fd (held fd) ≡ []
without-held (pos n) = rw (eq_ℤ-refl (pos n)) refl
without-held (negsuc n) = refl

-- The calls have left open the socket of the variable `listener_fd`, and no other.
abbrev pub Tracks : Os → Type 0
Tracks o = left_open [] o.calls ≡ held o.listener_fd

Tracks-call :
    (c : SysCall) (o : Os)
    → Tracks o
    → left_open [] (call c o).calls ≡ after_call (held o.listener_fd) c
Tracks-call c o t = left_open-append [] o.calls c ∙ ap (λ fds. after_call fds c) t

Tracks-closed :
    (o : Os)
    → Tracks o
    → Tracks (call unlink (record (call (close o.listener_fd) o) { listener_fd = failure }))
Tracks-closed o t =
    let o' = record (call (close o.listener_fd) o) { listener_fd = failure } in
    Tracks-call unlink o' (Tracks-call (close o.listener_fd) o t ∙ without-held o.listener_fd)

Tracks-keep :
    (c : SysCall) (o : Os)
    → after_call (held o.listener_fd) c ≡ held o.listener_fd
    → Tracks o
    → Tracks (call c o)
Tracks-keep c o k t = Tracks-call c o t ∙ k

Tracks-made :
    (fd : ℤ) (o : Os)
    → is_negative o.listener_fd ≡ true
    → Tracks o
    → Tracks (record (call (socket fd) o) { listener_fd = fd })
Tracks-made fd o e t =
    Tracks-call (socket fd) o t
    ∙ ap (λ b. after_call (if b then [] else o.listener_fd ∷ []) (socket fd)) e

-- What a call returns, and that the listener is the one socket left open.
abbrev pub Answered : ℤ × Os → Type 0
Answered (r, o) = Tracks o × (is_negative o.listener_fd ≡ true → r ≡ failure)

-- What the initialisation leaves: a result of 0 comes with a listener.
abbrev Ready : ℤ × Os → Type 0
Ready (r, o) = Tracks o × (is_negative r ≡ false → is_negative o.listener_fd ≡ false)

pub holds-if :
    (P : ℤ × Os → Type 0) (b : Bool) (x y : ℤ × Os)
    → (b ≡ true → P x)
    → (b ≡ false → P y)
    → P (if b then x else y)
holds-if P true x y h k = h refl
holds-if P false x y h k = k refl

init_listener-Ready :
    (s : Sockets) (o : Os) → is_negative o.listener_fd ≡ true → Tracks o → Ready (init_listener s o)
unfolding init_listener
init_listener-Ready s o unset t =
    let fd = s.socket_fd o in
    let made = record (call (socket fd) o) { listener_fd = fd } in
    let bound = call (bind fd) made in
    let listening = call (listen fd) bound in
    let m = Tracks-made fd o unset t in
    let b = Tracks-keep (bind fd) made refl m in
    let l = Tracks-keep (listen fd) bound refl b in
    let inner =
      if not (s.listen_ok bound) then destroy_socket listening else (success, listening) in
    let outer = if not (s.bind_ok made) then destroy_socket bound else inner in
    holds-if Ready (is_negative fd) (failure, made) outer (λ e. (m, λ n. ground (arith, n)))
      (λ e.
        holds-if Ready (not (s.bind_ok made)) (destroy_socket bound) inner
          (λ e'. (Tracks-closed bound b, λ n. ground (arith, n)))
          (λ e'.
            holds-if Ready (not (s.listen_ok bound)) (destroy_socket listening) (success, listening)
              (λ e''. (Tracks-closed listening l, λ n. ground (arith, n))) (λ e''. (l, λ n. e))))

accept_if-Answered : (s : Sockets) (r : ℤ) (o : Os) → Ready (r, o) → Answered (accept_if s (r, o))
accept_if-Answered s r o (t, a) =
    holds-if Answered (is_negative r) (failure, o) (accept_on s o) (λ e. (t, λ n. refl))
      (λ e. (Tracks-keep (accept o.listener_fd) o refl t, λ n. ground (arith, n, a e)))

pub close_listener-Tracks : (o : Os) → Tracks o → Tracks (close_listener o)
unfolding close_listener
close_listener-Tracks o t = elim (Bool-cases (is_positive o.listener_fd)) [
  | inl e ↦ rw e (Tracks-closed o t)
  | inr e ↦ rw e t
]

remove_file-Tracks :
    (s : Sockets) (o : Os)
    → Tracks o
    → Tracks (remove_file s o) × ((remove_file s o).listener_fd ≡ o.listener_fd)
remove_file-Tracks s o t = elim (Bool-cases (s.file_exists o)) [
  | inl e ↦ rw e (Tracks-keep unlink (call access o) refl (Tracks-keep access o refl t), refl)
  | inr e ↦ rw e (Tracks-keep access o refl t, refl)
]

pub listener-Tracks :
    (s : Sockets) (o : Os) → Tracks o → Answered (wait_connection s o) × Tracks (close_listener o)
unfolding wait_connection
listener-Tracks s o t = (
  holds-if Answered (is_negative o.listener_fd) (accept_if s (init_listener s (remove_file s o)))
      (accept_on s o)
      (λ e.
        let (t', same) = remove_file-Tracks s o t in
        let r = init_listener s (remove_file s o) in
        accept_if-Answered s r.0 r.1
          (init_listener-Ready s (remove_file s o) (ap is_negative same ∙ e) t'))
      (λ e. (Tracks-keep (accept o.listener_fd) o refl t, λ n. ground (arith, n, e))),
  close_listener-Tracks o t,
)
