-- ===== src/Config/Bound/Lines.antt =====
-- control/src/config.c: the loops over a line find in it what it is.
use cnc_robot_control.Common.{
  ℕ, ◌+◌, ◌-◌, ◌≡◌, ◌∙◌, inl, inr, refl, sym, ap, ◌||◌, [], ◌∷◌, ◌++◌, arith, ltb, ◌==◌, Bool-cases,
  length, drop, drop-drop,
}
use cnc_robot_control.Config.Bound.{Kind, section, other, section_of, identifier, assigned, kind_of}
use cnc_robot_control.Config.Chars.{Bytes, islower, isblank}
use cnc_robot_control.Config.Scan.{Scan, scan_param, scan_identifier, scan_value}
use cnc_robot_control.Config.Types.{
  Identifiers, State, read_identifier, set_identifier, check_param, set_param, read_value, cleanup,
  error, Message, param_max_len,
}

drop_next :
    (i : ℕ) (buff : Bytes) (c : ℕ) (xs : Bytes) → drop i buff ≡ c ∷ xs → drop (i + 1) buff ≡ xs
drop_next i buff c xs e = sym (drop-drop i 1 buff) ∙ ap (λ s. drop 1 s) e

-- The cursor stands in front of a text that the terminator ends.
abbrev pub Stands : Bytes → ℕ → Bytes → Bytes → Type 0
Stands buff i text slack = drop i buff ≡ text ++ (0 ∷ slack)

-- What `state_read_param` has found out of a line of the kind `k`, by the state that comes next.
abbrev pub ParamAt : State → Bytes → Bytes → ℕ → Bytes → Kind → Type 0
ParamAt check_param buff text i slack k =
    (rest : Bytes) × Stands buff i rest slack × (k ≡ assigned text rest)
ParamAt read_identifier buff text i slack k =
    (rest : Bytes) × Stands buff i rest slack × (k ≡ section (identifier [] rest))
ParamAt cleanup buff text i slack k = k ≡ other
ParamAt error buff text i slack k = Unit
ParamAt _ buff text i slack k = ⊥

abbrev ParamRead : Bytes → Bytes → Kind → Scan → Type 0
ParamRead buff slack k s = ParamAt s.next buff s.text (s.cursor + 1) slack k

pub scan_param-ParamAt :
    (msg : Message) (buff slack text name : Bytes) (i : ℕ)
    → Stands buff i text slack
    → ParamRead buff slack (kind_of name text) (scan_param msg (text ++ (0 ∷ slack)) name i)
unfolding scan_param kind_of
scan_param-ParamAt msg buff slack [] name i e = tt
scan_param-ParamAt msg buff slack (c ∷ cs) name i e =
    let next = drop_next i buff c (cs ++ (0 ∷ slack)) e in
    elim (Bool-cases (islower c || c == b'_')) [
      | inl a ↦ elim (Bool-cases (ltb (length name) (param_max_len - 1))) [
        | inl l ↦ rw (a, l) (scan_param-ParamAt msg buff slack cs (name ++ c ∷ []) (i + 1) next)
        | inr l ↦ rw (a, l) tt
      ]
      | inr a ↦ elim (Bool-cases (c == b'=')) [
        | inl b ↦ rw (a, b) (cs, next, refl)
        | inr b ↦ elim (Bool-cases (c == b'[')) [
          | inl d ↦ rw (a, b, d) (cs, next, refl)
          | inr d ↦ elim (Bool-cases (c == b'#' || isblank c || c == b'\n')) [
            | inl f ↦ rw (a, b, d, f) refl
            | inr f ↦ rw (a, b, d, f) tt
          ]
        ]
      ]
    ]

-- What `state_read_identifier` has found, where the section that the line opens is `id`.
abbrev pub IdentifierAt : State → Bytes → Identifiers → Type 0
IdentifierAt set_identifier text id = id ≡ section_of text
IdentifierAt error text id = Unit
IdentifierAt _ text id = ⊥

abbrev IdentifierRead : Identifiers → Scan → Type 0
IdentifierRead id s = IdentifierAt s.next s.text id

pub scan_identifier-IdentifierAt :
    (msg : Message) (slack text name : Bytes) (i : ℕ)
    → IdentifierRead (identifier name text) (scan_identifier msg (text ++ (0 ∷ slack)) name i)
unfolding scan_identifier identifier
scan_identifier-IdentifierAt msg slack [] name i = tt
scan_identifier-IdentifierAt msg slack (c ∷ cs) name i = elim (Bool-cases (islower c)) [
  | inl a ↦ elim (Bool-cases (ltb (length name) (param_max_len - 1))) [
    | inl l ↦ rw (a, l) (scan_identifier-IdentifierAt msg slack cs (name ++ c ∷ []) (i + 1))
    | inr l ↦ rw (a, l) tt
  ]
  | inr a ↦ elim (Bool-cases (c == b']')) [ inl b ↦ rw (a, b) refl | inr b ↦ rw (a, b) tt ]
]

-- A value is read to its end, or the line is refused.
abbrev pub ValueAt : State → Type 0
ValueAt set_param = Unit
ValueAt error = Unit
ValueAt read_value = Unit
ValueAt _ = ⊥

pub scan_value-ValueAt :
    (msg : Message) (bs text : Bytes) (i : ℕ) → ValueAt (scan_value msg bs text i).next
unfolding scan_value
scan_value-ValueAt msg [] text i = tt
scan_value-ValueAt msg (c ∷ cs) text i =
    ground (arith, scan_value-ValueAt msg cs (text ++ c ∷ []) (i + 1))
