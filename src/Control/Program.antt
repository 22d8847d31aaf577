-- ===== src/Control/Program.antt =====
-- control/src/control.c: the variables of the control program and the commands that it obeys.
use cnc_robot_control.Common.{
  ℕ, Bool, true, ◌&&◌, ◌||◌, List, ◌∷◌, ◌++◌, Option, none, some, leb, ◌==◌, if◌then◌else◌, length,
  get_elem?, take, drop, ◌-◌,
}
use cnc_robot_control.Common.Int.{ℤ, pos, negsuc, ◌>>=◌}
use cnc_robot_control.Axis.Double.{Double}
use cnc_robot_control.Axis.Motion.{
  axis_get_position, axis_move, axis_set_speed, axis_stop, axis_wait,
}
use cnc_robot_control.Axis.Object.{Axis}
use cnc_robot_control.Control.Message.{Read}
use cnc_robot_control.Ipc.Listener.{Os, call, write}
use cnc_robot_control.Stepper.Values.{success, failure}
use cnc_robot_control.Stepper.World.{World, Env}
use cnc_robot_control.Time.Calc.{Timespec}

-- `inputs` is what the calls of `read` on a descriptor will give.
pub record Control (D : Type 0) : Type 0 where
  pub x_axis : Option (Axis D)
  pub stop : Bool
  pub zed_socket : ℤ
  pub lidar_socket : ℤ
  pub flask_socket : ℤ
  pub e_stop_fd : ℤ
  pub world : World
  pub os : Os
  pub inputs : ℤ → List Read

-- What the platform decides: whether a `char` is signed, the bytes of numbers, the clock, and what the
-- threads of the motors do while a call waits for them.
pub record Platform (D : Type 0) : Type 0 where
  pub char_signed : Bool
  pub double_of : List ℕ → D
  pub double_bytes : D → List ℕ
  pub long_bytes : ℤ → List ℕ
  pub clock : Control D → Timespec
  pub meanwhile : World → World

pub data Cmd : Type 0 where
  cmd_move cmd_stop cmd_finish cmd_getpos cmd_params : Cmd

abbrev pub cmd_of : ℕ → Option Cmd
cmd_of b =
    if b == 1
    then some cmd_move
    else if b == 2
    then some cmd_stop
    else if b == 3
    then some cmd_finish
    else if b == 4
    then some cmd_getpos
    else if b == 5
    then some cmd_params
    else none

-- A byte of a `char` array as an `int`.
abbrev pub char_value : Bool → ℕ → ℤ
char_value signed b = if signed && leb 128 b then negsuc (255 - b) else pos b

module _ {D : Type 0} where
  -- `write` of the first `n` bytes of an array: `none` if they are not all in it, which a negative count
  -- asks for too. Its result is not looked at.
  unfoldable pub send : ℤ → List ℕ → ℤ → Control D → Option (Control D)
  send fd bytes (negsuc k) c = none
  send fd bytes (pos n) c =
      if leb n (length bytes)
      then some (record c { os = call (write fd (take n bytes)) c.os })
      else none

  abbrev pub send_if : Bool → ℤ → List ℕ → ℤ → Control D → Option (Control D)
  send_if b fd bytes n c = if b then send fd bytes n c else some c

  -- The array `response`.
  abbrev pub getpos_response : Platform D → D → Timespec → List ℕ
  getpos_response p mm t_now =
      25 ∷ 4 ∷ (p.double_bytes mm ++ p.long_bytes t_now.tv_sec ++ p.long_bytes t_now.tv_nsec)

  -- The world when a call that may have waited comes back.
  abbrev pub resumed : Platform D → Bool × World → World
  resumed p (waits, w) = if waits then p.meanwhile w else w

module _ {D : Type 0} (d : Double D) (env : Env) (p : Platform D) where
  -- The function `cmd_move`, on the bytes behind the command.
  unfoldable pub do_move : List ℕ → Control D → Option (ℤ × Control D)
  do_move bytes c = do
    (r, axis, w) ← axis_set_speed d c.x_axis (p.double_of (take 8 bytes)) c.world
    (r', axis', w') ← axis_move d env axis (p.double_of (take 8 (drop 8 bytes))) w
    some (success, record c { x_axis = axis'; world = w' })

  -- The function `cmd_getpos`.
  unfoldable pub do_getpos : Control D → Option (ℤ × Control D)
  do_getpos c = do
    (mm, axis) ← axis_get_position d c.x_axis c.world
    let response = getpos_response p mm (p.clock c)
    c' ← send c.zed_socket response (pos (length response)) (record c { x_axis = axis })
    some (success, c')

  unfoldable pub do_stop : Control D → Option (Control D)
  do_stop c = do r ← axis_stop c.x_axis c.world; some (record c { world = resumed p r })

  unfoldable pub do_wait : Control D → Option (Control D)
  do_wait c = do r ← axis_wait c.x_axis c.world; some (record c { world = resumed p r })

  -- The cases of the switch of `decode_message`. The outer `none` is an access outside the message, or
  -- what the functions of the axis make of an invalid pointer.
  unfoldable pub run_cmd : Option Cmd → List ℕ → ℤ → Control D → Option (ℤ × Control D)
  unfolding do_move do_getpos do_stop do_wait
  run_cmd none msg n c = some (failure, c)
  run_cmd (some cmd_move) msg n c = do_move (drop 2 msg) c
  run_cmd (some cmd_stop) msg n c = do c' ← do_stop c; some (success, c')
  run_cmd (some cmd_finish) msg n c = do
    flag ← get_elem? msg 2
    c' ← if flag == 0 then do_wait c else do_stop c
    some (success, record c' { stop = true })
  run_cmd (some cmd_getpos) msg n c = do_getpos c
  run_cmd (some cmd_params) msg n c = do
    dest ← get_elem? msg 31
    c' ← send_if (dest == 1 || dest == 0) c.lidar_socket msg n c
    c'' ← send_if (dest == 2 || dest == 0) c.zed_socket msg n c'
    some (success, c'')

  unfoldable pub decode_message : List ℕ → Control D → Option (ℤ × Control D)
  unfolding run_cmd
  decode_message msg c = do
    b ← get_elem? msg 0
    cmd ← get_elem? msg 1
    run_cmd (cmd_of cmd) msg (char_value p.char_signed b) c
