-- ===== src/Config/Pointing.antt =====
-- control/src/config.c: the motors that an axis names are entries of `motor_list`.
pub mod Rounds
pub mod Motors
pub mod Loops
pub mod Whole
use mathlib.Core.Option.{some-injective}
use mathlib.Core.Path.{subst}
use cnc_robot_control.Common.{
  ℕ, zero, suc, ◌+◌, ◌-◌, ◌≤◌, ◌<◌, ◌≡◌, ◌∙◌, inl, inr, refl, Bool, true, false, List, [], ◌∷◌,
  ◌++◌, Option, none, some, arith, ◌==◌, if◌then◌else◌, Bool-cases, Option-cases, length,
  length-set, get_elem?, set, drop, replicate,
}
use cnc_robot_control.Common.Int.{◌>>=◌}
use cnc_robot_control.Config.Chars.{Bytes, str_to_int, strncmp_eq}
use cnc_robot_control.Config.Entries.{AllOf, AllOf-set, AllIf, at_index, update_last-AllIf}
use cnc_robot_control.Config.Lookup.{find_node, get_motor_node_by_name}
use cnc_robot_control.Config.Machine.{dispatch, step, start}
use cnc_robot_control.Config.MotorList.{add_motor, set_listed, list_loop, state_read_motor_list}
use cnc_robot_control.Config.Scan.{
  state_read_line, state_read_param, state_read_identifier, state_read_value,
}
use cnc_robot_control.Config.Setters.{
  fail, set_motor, set_axis, set_pin, set_param_of, state_set_identifier, state_check_param,
  state_set_param,
}
use cnc_robot_control.Config.Types.{
  MotorConfig, AxisConfig, State, Params, Message, Line, line, read_error, Machine, motor_name_len,
}

-- The first `c` places of an array hold numbers below `n`.
abbrev pub Points : ℕ → ℕ → List (Option ℕ) → Type 0
Points n zero ps = Unit
Points n (suc c) [] = ⊥
Points n (suc c) (none ∷ ps) = ⊥
Points n (suc c) (some i ∷ ps) = (i < n) × Points n c ps

abbrev pub PointsTo : ℕ → AxisConfig → Type 0
PointsTo n x = (length x.motors ≡ 8) × Points n x.count x.motors

abbrev pub Pointing : Machine → Type 0
Pointing m = AllOf (PointsTo m.motor_list_len) m.axis_list

abbrev pub PointingIf : Option Machine → Type 0
PointingIf none = Unit
PointingIf (some m) = Pointing m

Points-more : (n c : ℕ) (ps : List (Option ℕ)) → Points n c ps → Points (n + 1) c ps
Points-more n zero ps h = tt
Points-more n (suc c) [] h = absurd h
Points-more n (suc c) (none ∷ ps) h = absurd h
Points-more n (suc c) (some i ∷ ps) h = (omega (arith, h.0), Points-more n c ps h.1)

pub AllOf-more :
    (n : ℕ) (xs : List AxisConfig) → AllOf (PointsTo n) xs → AllOf (PointsTo (n + 1)) xs
AllOf-more n [] h = tt
AllOf-more n (x ∷ xs) h = ((h.0.0, Points-more n x.count x.motors h.0.1), AllOf-more n xs h.1)

Points-set :
    (n c p : ℕ) (ps : List (Option ℕ))
    → p < n
    → c < length ps
    → Points n c ps
    → Points n (suc c) (set ps c (some p))
Points-set n zero p [] l k h = elim k [ ]
Points-set n zero p (o ∷ ps) l k h = (l, tt)
Points-set n (suc c) p [] l k h = absurd h
Points-set n (suc c) p (none ∷ ps) l k h = absurd h
Points-set n (suc c) p (some i ∷ ps) l k h = (h.0, Points-set n c p ps l (omega arith) h.1)

-- A node that is found is one of those that were looked at.
abbrev FoundBelow : ℕ → Option (Option ℕ) → Type 0
FoundBelow n (some (some i)) = i < n
FoundBelow n _ = Unit

find_node-below {ℓ} :
    {A : Type ℓ} (name_of : A → Bytes) (name : Bytes) (nodes : List A) (n i k : ℕ)
    → n + i ≤ k
    → FoundBelow k (find_node name_of name nodes n i)
unfolding find_node
find_node-below name_of name nodes zero i k h = tt
find_node-below name_of name [] (suc n) i k h = tt
find_node-below name_of name (x ∷ nodes) (suc n) i k h =
    elim (Bool-cases (strncmp_eq name (name_of x) motor_name_len)) [
      | inl hit ↦ rw hit (omega arith)
      | inr miss ↦ rw miss (find_node-below name_of name nodes n (i + 1) k (omega arith))
    ]

put_motor :
    (k node at : ℕ) (xs : List AxisConfig) (x : AxisConfig)
    → AllOf (PointsTo k) xs
    → get_elem? xs at ≡ some x
    → node < k
    → x.count < 8
    → AllOf
        (PointsTo k)
        (set xs at (record x { motors = set x.motors x.count (some node); count = x.count + 1 }))
put_motor k node at xs x h e l r =
    let (size, points) = at_index (PointsTo k) xs at h x e in
    AllOf-set (PointsTo k) xs at _ h (
      length-set x.motors x.count (some node) ∙ size,
      subst (λ c. Points k c (set x.motors x.count (some node))) {x = suc x.count} (omega arith)
          (Points-set k x.count node x.motors l (omega (arith, size)) points),
    )

add_motor-Pointing :
    (node : ℕ) (m : Machine) → Pointing m → node < m.motor_list_len → PointingIf (add_motor node m)
unfolding add_motor
add_motor-Pointing node m h l = elim (Option-cases (get_elem? m.axis_list (m.axis_list_len - 1))) [
  | inl e ↦ ground arith
  | inr (x, e) ↦
      ground (arith, put_motor m.motor_list_len node (m.axis_list_len - 1) m.axis_list x h e l)
]

abbrev ListedPointing : Option (Machine × Bool) → Type 0
ListedPointing none = Unit
ListedPointing (some (m, b)) = Pointing m

found_Pointing :
    (name : Bytes) (m : Machine) (found : Option (Option ℕ))
    → Pointing m
    → FoundBelow m.motor_list_len found
    → ListedPointing (do
      f ← found
      elim f [
        | none ↦ some (fail (Message.motor_not_found name) m, true)
        | some node ↦ (do m' ← add_motor node m; some (m', false))
      ])
found_Pointing name m none h b = tt
found_Pointing name m (some none) h b = h
found_Pointing name m (some (some node)) h b =
    let added = add_motor-Pointing node m h b in
    elim (Option-cases (add_motor node m)) [ inl e ↦ rw e tt | inr (m', e) ↦ rw e (rw e at added) ]

set_listed-Pointing : (text : Bytes) (m : Machine) → Pointing m → ListedPointing (set_listed text m)
unfolding set_listed get_motor_node_by_name
set_listed-Pointing [] m h = h
set_listed-Pointing (c ∷ s) m h = found_Pointing (c ∷ s) m (get_motor_node_by_name m (c ∷ s)) h (
    find_node-below (λ (x : MotorConfig). x.name) (c ∷ s) m.motor_list m.motor_list_len 0
      m.motor_list_len (omega arith))

pub list_loop-Pointing :
    (bs text : Bytes) (i : ℕ) (m : Machine) → Pointing m → PointingIf (list_loop bs text i m)
unfolding list_loop
list_loop-Pointing [] text i m h =
    ground (arith, set_listed-Pointing text (record m { value = text; offset = i + 1 }) h)
list_loop-Pointing (c ∷ cs) text i m h =
    let here = record m { value = text; offset = i + 1 } in
    let more = list_loop-Pointing cs (text ++ c ∷ []) (i + 1) m h in
    let last = set_listed-Pointing text (record here { state = State.cleanup }) h in
    elim (Option-cases (set_listed text here)) [
      | inl e ↦ ground (arith, more, last)
      | inr (r, e) ↦
          let kept : Pointing r.0 = rw e at (set_listed-Pointing text here h) in
          ground (arith, more, last, kept, list_loop-Pointing cs [] (i + 1) r.0 kept)
    ]
