-- ===== src/Config/Bound/Rounds.antt =====
-- control/src/config.c: a round of the state machine on a file that fits.
use cnc_robot_control.Common.{
  ℕ, ◌+◌, ◌-◌, ◌≤◌, ◌<◌, ◌≡◌, ◌∙◌, ◌⊎◌, inl, inr, refl, ap, [], ◌∷◌, ◌++◌, Option, none, some,
  arith, drop,
}
use cnc_robot_control.Config.Bound.{names, Fits}
use cnc_robot_control.Config.Bound.Listing.{list_loop-RoomNext, SameAt, list_loop-SameAt}
use cnc_robot_control.Config.Bound.Next.{
  Next, Goes, read_line-Goes, read_param-Goes, read_identifier-Goes, read_value-Goes,
  set_identifier-Goes, check_param-Goes,
}
use cnc_robot_control.Config.Bound.Spare.{HasSpare, RoomKept, set_param-RoomKept}
use cnc_robot_control.Config.Chars.{Bytes}
use cnc_robot_control.Config.Invariant.{Inv}
use cnc_robot_control.Config.Machine.{dispatch, step}
use cnc_robot_control.Config.MotorList.{list_loop, state_read_motor_list}
use cnc_robot_control.Config.Room.{IsSome, HasRoom, RoomNext}
use cnc_robot_control.Config.Safety.{set_param-IsSome}
use cnc_robot_control.Config.Setters.{state_set_param}
use cnc_robot_control.Config.Setting.{Sets, set_param-Sets, list_loop-Sets}
use cnc_robot_control.Config.Types.{State, Machine, set_param, read_motor_list}

-- The terminator ends a list of names.
names-slack : (text slack : Bytes) → names (text ++ (0 ∷ slack)) ≡ names text
names-slack [] slack = refl
names-slack (c ∷ cs) slack = rw (names-slack cs slack) refl

settled-Next :
    (s : State) (m : Machine) (room : ℕ)
    → (s ≡ State.cleanup) ⊎ (s ≡ State.error)
    → Fits m.file m.motor_list_len m.axis_list_len room
    → Next s m room
settled-Next s m room (inl e) f = rw e f
settled-Next s m room (inr e) f = rw e tt

module _ (m : Machine) (v : Inv m) (room : ℕ) (s : HasSpare room m) where
  -- A round that keeps the lengths of the lists, and room in their entries.
  kept-Goes :
      (o : Option Machine)
      → IsSome o
      → Sets m o
      → (0 < m.axis_list_len → RoomKept room (m.axis_list_len - 1) m o)
      → ((i : ℕ) → m.axis_list_len ≤ i → RoomKept 8 i m o)
      → Fits m.file m.motor_list_len m.axis_list_len room
      → Goes o
  kept-Goes none i k a b f = absurd i
  kept-Goes (some m') i ((file, _, _, _, _, motors, axes, _, _), e) a b f = (
    room,
    rw (motors, axes)
        (record {
          few_motors = s.few_motors;
          few_axes = s.few_axes;
          open_room = λ p. a p (s.open_room p);
          unused = λ i l k. b i l (s.unused i l k);
        }),
    settled-Next m'.state m' room e (rw (file, motors, axes) f),
  )

  set_param-Goes : Next set_param m room → Goes (state_set_param m)
  set_param-Goes f =
      kept-Goes (state_set_param m) (set_param-IsSome m v s.few_motors s.few_axes)
        (set_param-Sets m) (λ p. set_param-RoomKept room (m.axis_list_len - 1) m)
        (λ i l. set_param-RoomKept 8 i m) f

  listed-Goes :
      (left : ℕ) (o : Option Machine)
      → RoomNext left o
      → Sets m o
      → ((i : ℕ) → m.axis_list_len ≤ i → SameAt i m o)
      → Fits m.file m.motor_list_len m.axis_list_len left
      → Goes o
  listed-Goes left none r k same f = absurd r
  listed-Goes left (some m') r ((file, _, _, _, _, motors, axes, _, _), e) same f = (
    left,
    record {
      few_motors = rw motors s.few_motors;
      few_axes = rw axes s.few_axes;
      open_room = λ p. r.2;
      unused = λ i l k.
          let l' : m.axis_list_len ≤ i = rw axes at l in rw ((same i l').1) (s.unused i l' k);
    },
    settled-Next m'.state m' left e (rw (file, motors, axes) f),
  )

  read_motor_list-Goes :
      m.state ≡ read_motor_list → Next read_motor_list m room → Goes (state_read_motor_list m)
  unfolding state_read_motor_list
  read_motor_list-Goes at (text, slack, e, (p, h, f)) =
      let bs = drop m.offset m.line_buff in
      let n : names bs ≡ names text = ap names e ∙ names-slack text slack in
      let left = room - names text in
      let all : left + names bs ≡ room = omega (arith, n) in
      let wide : HasRoom (left + names bs) m =
        (p, omega (arith, v.motors_size, s.few_motors), rw all (s.open_room p)) in
      listed-Goes left (list_loop bs [] m.offset m) (list_loop-RoomNext bs [] m.offset left m wide)
        (list_loop-Sets bs [] m.offset m at) (λ i l. list_loop-SameAt i bs [] m.offset m l) f

  dispatch-Goes : (st : State) → m.state ≡ st → Next st m room → Goes (dispatch st m)
  unfolding dispatch
  dispatch-Goes State.read_line e f = read_line-Goes m room s m.file refl f
  dispatch-Goes State.read_param e f = read_param-Goes m room s f
  dispatch-Goes State.read_identifier e f = read_identifier-Goes m room s f
  dispatch-Goes State.set_identifier e f = set_identifier-Goes m room s f
  dispatch-Goes State.check_param e f = check_param-Goes m room s f
  dispatch-Goes State.read_value e f = read_value-Goes m room s f
  dispatch-Goes State.set_param e f = set_param-Goes f
  dispatch-Goes State.read_motor_list e f = read_motor_list-Goes e f
  dispatch-Goes State.finished e f = (room, s, rw e tt)
  dispatch-Goes State.cleanup e f = (room, s, (refl, f))
  dispatch-Goes State.error e f = (room, s, rw e tt)

  pub step-Goes : Next m.state m room → Goes (step m)
  unfolding step
  step-Goes = dispatch-Goes m.state refl
