-- ===== src/Ipc/Listener.antt =====
-- control/src/ipc.c: the socket that other processes connect to. The calls of the operating system are
-- logged in the order made; what they answer is the parameter `Sockets`.
use cnc_robot_control.Common.{ℕ, suc, Bool, true, false, not, List, [], ◌∷◌, ◌++◌, if◌then◌else◌}
use cnc_robot_control.Common.Int.{ℤ, pos, negsuc}
use cnc_robot_control.Stepper.Values.{success, failure}

pub data SysCall : Type 0 where
  access unlink : SysCall  -- of the backing file
  socket : ℤ → SysCall  -- and the descriptor that it gives
  bind listen accept close : ℤ → SysCall
  write : ℤ → List ℕ → SysCall

pub record Os : Type 0 where
  pub listener_fd : ℤ
  pub calls : List SysCall

-- The answers of the system, which may depend on all that happened before.
pub record Sockets : Type 0 where
  pub socket_fd : Os → ℤ
  pub bind_ok : Os → Bool
  pub listen_ok : Os → Bool
  pub file_exists : Os → Bool
  pub accept_fd : Os → ℤ

abbrev pub call : SysCall → Os → Os
call c o = record o { calls = o.calls ++ c ∷ [] }

-- `fd < 0` and `fd > 0`
abbrev pub is_negative : ℤ → Bool
is_negative (pos n) = false
is_negative (negsuc n) = true

abbrev pub is_positive : ℤ → Bool
is_positive (pos (suc n)) = true
is_positive _ = false

-- The label `destroy_socket`.
abbrev pub destroy_socket : Os → ℤ × Os
destroy_socket o =
    (failure, call unlink (record (call (close o.listener_fd) o) { listener_fd = failure }))

unfoldable pub init_listener : Sockets → Os → ℤ × Os
init_listener s o =
    let fd = s.socket_fd o in
    let made = record (call (socket fd) o) { listener_fd = fd } in
    let bound = call (bind fd) made in
    let listening = call (listen fd) bound in
    if is_negative fd
    then (failure, made)
    else if not (s.bind_ok made)
    then destroy_socket bound
    else if not (s.listen_ok bound)
    then destroy_socket listening
    else (success, listening)

abbrev pub accept_on : Sockets → Os → ℤ × Os
accept_on s o = (s.accept_fd o, call (accept o.listener_fd) o)

abbrev pub accept_if : Sockets → ℤ × Os → ℤ × Os
accept_if s (r, o) = if is_negative r then (failure, o) else accept_on s o

-- The backing file of a run before, if there is one, is removed before the listener is made.
abbrev pub remove_file : Sockets → Os → Os
remove_file s o = if s.file_exists o then call unlink (call access o) else call access o

unfoldable pub wait_connection : Sockets → Os → ℤ × Os
unfolding init_listener
wait_connection s o =
    if is_negative o.listener_fd
    then accept_if s (init_listener s (remove_file s o))
    else accept_on s o

unfoldable pub close_listener : Os → Os
close_listener o =
    if is_positive o.listener_fd
    then call unlink (record (call (close o.listener_fd) o) { listener_fd = failure })
    else o
