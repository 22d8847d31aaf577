-- ===== src/Config/Bound/Next.antt =====
-- control/src/config.c: what a round leaves for the rounds behind it.
use cnc_robot_control.Common.{
  ℕ, ◌+◌, ◌-◌, ◌≤◌, ◌≡◌, inl, inr, refl, List, [], ◌∷◌, Option, none, some, arith, Bool-cases,
  Option-cases, drop,
}
use cnc_robot_control.Config.Bound.{
  Kind, section, listing, other, section_of, identifier, assigned, kind_of, FitsKind, Fits,
}
use cnc_robot_control.Config.Bound.Lines.{
  Stands, ParamAt, scan_param-ParamAt, IdentifierAt, scan_identifier-IdentifierAt, ValueAt,
  scan_value-ValueAt,
}
use cnc_robot_control.Config.Bound.Spare.{HasSpare}
use cnc_robot_control.Config.Chars.{Bytes, codes, strncmp_eq}
use cnc_robot_control.Config.Scan.{
  scan_param, scan_identifier, state_read_line, state_read_param, state_read_identifier,
  state_read_value,
}
use cnc_robot_control.Config.Setters.{
  motor_params, axis_params, match_param, state_set_identifier, state_check_param,
}
use cnc_robot_control.Config.Types.{
  State, Identifiers, Line, line, read_error, Machine, read_line, read_param, read_identifier,
  set_identifier, check_param, read_value, set_param, read_motor_list, cleanup, finished, error,
}

-- The lines ahead, and what the machine has still to do with its line, fit the room that is left.
abbrev pub Rest : Kind → Machine → ℕ → Type 0
Rest k m room = FitsKind k (Fits m.file) m.motor_list_len m.axis_list_len room

abbrev pub OnLine : (Bytes → Kind) → Machine → ℕ → Type 0
OnLine kind m room =
    (text : Bytes) × (slack : Bytes) × Stands m.line_buff m.offset text slack
    × Rest (kind text) m room

abbrev pub Next : State → Machine → ℕ → Type 0
Next read_line m room = (m.offset ≡ 0) × Rest other m room
Next read_param m room = OnLine (kind_of []) m room
Next read_identifier m room = OnLine (λ text. section (identifier [] text)) m room
Next set_identifier m room = Rest (section (section_of m.param)) m room
Next check_param m room = OnLine (assigned m.param) m room
Next read_motor_list m room = OnLine listing m room
Next read_value m room = Rest other m room
Next set_param m room = Rest other m room
Next cleanup m room = Rest other m room
Next finished m room = Unit
Next error m room = Unit

-- What a round comes to: no fault, and room for what is ahead.
abbrev pub Goes : Option Machine → Type 0
Goes none = ⊥
Goes (some m) = (room : ℕ) × HasSpare room m × Next m.state m room

param-Next :
    (s : State) (m : Machine) (slack : Bytes) (k : Kind) (room : ℕ)
    → ParamAt s m.line_buff m.param m.offset slack k
    → Rest k m room
    → Next s m room
param-Next check_param m slack k room (rest, e, q) f = (rest, slack, e, rw q at f)
param-Next read_identifier m slack k room (rest, e, q) f = (rest, slack, e, rw q at f)
param-Next cleanup m slack k room q f = rw q at f
param-Next error m slack k room q f = tt
param-Next read_line m slack k room q f = absurd q
param-Next read_param m slack k room q f = absurd q
param-Next set_identifier m slack k room q f = absurd q
param-Next read_motor_list m slack k room q f = absurd q
param-Next read_value m slack k room q f = absurd q
param-Next set_param m slack k room q f = absurd q
param-Next finished m slack k room q f = absurd q

identifier-Next :
    (s : State) (m : Machine) (id : Identifiers) (room : ℕ)
    → IdentifierAt s m.param id
    → Rest (section id) m room
    → Next s m room
identifier-Next set_identifier m id room q f = rw q at f
identifier-Next error m id room q f = tt
identifier-Next read_line m id room q f = absurd q
identifier-Next read_param m id room q f = absurd q
identifier-Next read_identifier m id room q f = absurd q
identifier-Next check_param m id room q f = absurd q
identifier-Next read_motor_list m id room q f = absurd q
identifier-Next read_value m id room q f = absurd q
identifier-Next set_param m id room q f = absurd q
identifier-Next cleanup m id room q f = absurd q
identifier-Next finished m id room q f = absurd q

value-Next : (s : State) (m : Machine) (room : ℕ) → ValueAt s → Rest other m room → Next s m room
value-Next set_param m room q f = f
value-Next read_value m room q f = f
value-Next error m room q f = tt
value-Next read_line m room q f = absurd q
value-Next read_param m room q f = absurd q
value-Next read_identifier m room q f = absurd q
value-Next set_identifier m room q f = absurd q
value-Next check_param m room q f = absurd q
value-Next read_motor_list m room q f = absurd q
value-Next cleanup m room q f = absurd q
value-Next finished m room q f = absurd q

module _ (m : Machine) (room : ℕ) (s : HasSpare room m) where
  pub read_line-Goes :
      (file : List Line) → m.file ≡ file → Next read_line m room → Goes (some (state_read_line m))
  unfolding state_read_line
  read_line-Goes [] e (z, f) = rw (e, state_read_line) (room, s, tt)
  read_line-Goes (read_error ∷ rest) e (z, f) = rw (e, state_read_line) (room, s, tt)
  read_line-Goes (line text slack ∷ rest) e (z, f) =
      rw (e, state_read_line)
        (
          room,
          s,
          (
            text,
            slack,
            rw z refl,
            let f' : Fits (line text slack ∷ rest) m.motor_list_len m.axis_list_len room =
                  rw e at f in
                f',
          ),
        )

  pub read_param-Goes : Next read_param m room → Goes (some (state_read_param m))
  unfolding state_read_param
  read_param-Goes (text, slack, e, f) =
      let r = scan_param m.err_str (drop m.offset m.line_buff) [] m.offset in
      let q : ParamAt r.next m.line_buff r.text (r.cursor + 1) slack (kind_of [] text) =
        rw e (scan_param-ParamAt m.err_str m.line_buff slack text [] m.offset e) in
      (room, s, param-Next r.next (state_read_param m) slack (kind_of [] text) room q f)

  pub read_identifier-Goes : Next read_identifier m room → Goes (some (state_read_identifier m))
  unfolding state_read_identifier
  read_identifier-Goes (text, slack, e, f) =
      let r = scan_identifier m.err_str (drop m.offset m.line_buff) [] m.offset in
      let q : IdentifierAt r.next r.text (identifier [] text) =
        rw e (scan_identifier-IdentifierAt m.err_str slack text [] m.offset) in
      (room, s, identifier-Next r.next (state_read_identifier m) (identifier [] text) room q f)

  pub read_value-Goes : Next read_value m room → Goes (some (state_read_value m))
  unfolding state_read_value
  read_value-Goes f = (
    room,
    s,
    value-Next (state_read_value m).state (state_read_value m) room
        (scan_value-ValueAt m.err_str (drop m.offset m.line_buff) [] m.offset) f,
  )

  pub set_identifier-Goes : Next set_identifier m room → Goes (some (state_set_identifier m))
  unfolding state_set_identifier
  set_identifier-Goes f = elim (Bool-cases (strncmp_eq m.param (codes "motor") 5)) [
    | inl e ↦
        let (h, f') : (m.motor_list_len + 1 ≤ 8)
            × Fits m.file (m.motor_list_len + 1) m.axis_list_len room =
          rw e at f in
        rw e (
          room,
          record {
            few_motors = h;
            few_axes = s.few_axes;
            open_room = s.open_room;
            unused = s.unused;
          },
          f',
        )
    | inr e ↦ elim (Bool-cases (strncmp_eq m.param (codes "axis") 4)) [
      | inl e' ↦
          let (h, f') : (m.axis_list_len + 1 ≤ 8)
              × Fits m.file m.motor_list_len (m.axis_list_len + 1) 8 =
            rw (e, e') at f in
          rw (e, e')
            (
              8,
              record {
                few_motors = s.few_motors;
                few_axes = h;
                open_room = λ p.
                    let same : m.axis_list_len + 1 - 1 ≡ m.axis_list_len = omega arith in
                    rw same (s.unused m.axis_list_len (omega arith) (omega arith));
                unused = λ i l k. s.unused i (omega arith) k;
              },
              f',
            )
      | inr e' ↦ rw (e, e') (room, s, tt)
    ]
  ]

  -- With the section known.
  check_in :
      (id : Identifiers)
      → m.last_id ≡ id
      → Next check_param m room
      → Goes (some (state_check_param m))
  unfolding state_check_param
  check_in Identifiers.invalid_type l h = rw (l, state_check_param) (room, s, tt)
  check_in Identifiers.motor l (text, slack, e, f) =
      elim (Bool-cases (strncmp_eq m.param (codes "motors") 6)) [
        | inl h ↦ rw (l, state_check_param) (rw h (room, s, (text, slack, e, rw h at f)))
        | inr h ↦ elim (Option-cases (match_param m.param motor_params)) [
          | inl n ↦ rw (l, state_check_param) (rw (h, n) (room, s, tt))
          | inr (id, n) ↦ rw (l, state_check_param) (rw (h, n) (room, s, rw h at f))
        ]
      ]
  check_in Identifiers.axis l (text, slack, e, f) =
      elim (Bool-cases (strncmp_eq m.param (codes "motors") 6)) [
        | inl h ↦ rw (l, state_check_param) (rw h (room, s, (text, slack, e, rw h at f)))
        | inr h ↦ elim (Option-cases (match_param m.param axis_params)) [
          | inl n ↦ rw (l, state_check_param) (rw (h, n) (room, s, tt))
          | inr (id, n) ↦ rw (l, state_check_param) (rw (h, n) (room, s, rw h at f))
        ]
      ]

  pub check_param-Goes : Next check_param m room → Goes (some (state_check_param m))
  check_param-Goes = check_in m.last_id refl
