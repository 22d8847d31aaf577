-- ===== src/Config/Room.antt =====
-- control/src/config.c: when the loop over a list of motors stays inside its arrays.
use cnc_robot_control.Common.{
  ℕ, zero, suc, ◌+◌, ◌-◌, ◌≤◌, ◌<◌, ◌≡◌, inl, inr, refl, Bool, true, false, List, [], ◌∷◌, ◌++◌,
  Option, none, some, arith, ◌==◌, if◌then◌else◌, Option-cases, Bool-cases, length, get_elem?, set,
}
use cnc_robot_control.Common.Int.{◌>>=◌}
use cnc_robot_control.Config.Chars.{Bytes}
use cnc_robot_control.Config.Lookup.{find_node, get_motor_node_by_name}
use cnc_robot_control.Config.MotorList.{add_motor, set_listed, list_loop}
use cnc_robot_control.Config.Types.{MotorConfig, AxisConfig, State, Machine, motor_list_size_max}

abbrev pub IsSome {ℓ} : {A : Type ℓ} → Option A → Type 0
IsSome none = ⊥
IsSome (some a) = Unit

find_node-IsSome {ℓ} :
    {A : Type ℓ} (name_of : A → Bytes) (name : Bytes) (nodes : List A) (n i : ℕ)
    → n ≤ length nodes
    → IsSome (find_node name_of name nodes n i)
unfolding find_node
find_node-IsSome name_of name nodes zero i h = tt
find_node-IsSome name_of name [] (suc n) i h = elim h [ ]
find_node-IsSome name_of name (x ∷ nodes) (suc n) i h =
    ground (arith, find_node-IsSome name_of name nodes n (i + 1))

pub get_elem?-IsSome {ℓ} :
    {A : Type ℓ} (xs : List A) (i : ℕ) → i < length xs → IsSome (get_elem? xs i)
get_elem?-IsSome [] i h = elim h [ ]
get_elem?-IsSome (x ∷ xs) zero h = tt
get_elem?-IsSome (x ∷ xs) (suc i) h = get_elem?-IsSome xs i (omega arith)

pub get_elem?-set_same {ℓ} :
    {A : Type ℓ} (xs : List A) (i : ℕ) (x v : A)
    → get_elem? xs i ≡ some x
    → get_elem? (set xs i v) i ≡ some v
get_elem?-set_same [] i x v e = cc
get_elem?-set_same (y ∷ xs) zero x v e = refl
get_elem?-set_same (y ∷ xs) (suc i) x v e = get_elem?-set_same xs i x v e

-- There is an open axis entry, with room for `n` more motors.
abbrev pub RoomIn : ℕ → Option AxisConfig → Type 0
RoomIn n none = ⊥
RoomIn n (some x) = x.count + n ≤ motor_list_size_max

abbrev pub HasRoom : ℕ → Machine → Type 0
HasRoom n m =
    (0 < m.axis_list_len)
    × (m.motor_list_len ≤ length m.motor_list)
    × RoomIn n (get_elem? m.axis_list (m.axis_list_len - 1))

abbrev pub RoomNext : ℕ → Option Machine → Type 0
RoomNext n none = ⊥
RoomNext n (some m) = HasRoom n m

abbrev pub RoomAfter : ℕ → Option (Machine × Bool) → Type 0
RoomAfter n none = ⊥
RoomAfter n (some (m, stopped)) = HasRoom n m

RoomNext-of : (node n : ℕ) (m : Machine) → HasRoom (suc n) m → RoomNext n (add_motor node m)
unfolding add_motor
RoomNext-of node n m h = elim (Option-cases (get_elem? m.axis_list (m.axis_list_len - 1))) [
  | inl e ↦ absurd (rw e at h.2)
  | inr (x, e) ↦
      let put = record x { motors = set x.motors x.count (some node); count = x.count + 1 } in
      ground (arith, get_elem?-set_same m.axis_list (m.axis_list_len - 1) x put e)
]

get_motor_node_by_name-IsSome :
    (m : Machine) (name : Bytes)
    → m.motor_list_len ≤ length m.motor_list
    → IsSome (get_motor_node_by_name m name)
unfolding get_motor_node_by_name
get_motor_node_by_name-IsSome m name h =
    find_node-IsSome (λ (x : MotorConfig). x.name) name m.motor_list m.motor_list_len 0 h

listed_found :
    (c : ℕ) (s : Bytes) (n : ℕ) (m : Machine) (found : Option (Option ℕ))
    → get_motor_node_by_name m (c ∷ s) ≡ found
    → IsSome found
    → HasRoom (suc n) m
    → RoomAfter n (set_listed (c ∷ s) m)
unfolding set_listed
listed_found c s n m none e i h = absurd i
listed_found c s n m (some none) e i h = ground arith
listed_found c s n m (some (some node)) e i h = ground (arith, RoomNext-of node n m h)

pub set_listed-RoomAfter :
    (text : Bytes) (n : ℕ) (m : Machine) → HasRoom (suc n) m → RoomAfter n (set_listed text m)
set_listed-RoomAfter [] n m h = unfold set_listed in ground arith
set_listed-RoomAfter (c ∷ s) n m h =
    listed_found c s n m (get_motor_node_by_name m (c ∷ s)) refl
      (get_motor_node_by_name-IsSome m (c ∷ s) h.1) h

-- The commas of a text.
abbrev pub commas : Bytes → ℕ
commas [] = 0
commas (c ∷ cs) = (if c == b',' then 1 else 0) + commas cs

pub HasRoom-mono : (n k : ℕ) (m : Machine) → n ≤ k → HasRoom k m → HasRoom n m
HasRoom-mono n k m h (a, b, r) = elim (Option-cases (get_elem? m.axis_list (m.axis_list_len - 1))) [
  | inl e ↦ absurd (rw e at r)
  | inr (x, e) ↦ (a, b, rw e (let r' : RoomIn k (some x) = rw e at r in omega arith))
]

after_comma :
    (cs : Bytes) (i n : ℕ) (r : Option (Machine × Bool))
    → RoomAfter n r
    → ((m : Machine) → HasRoom n m → IsSome (list_loop cs [] i m))
    → IsSome (r >>= λ x. if x.1 then some x.0 else list_loop cs [] i x.0)
after_comma cs i n none a ih = absurd a
after_comma cs i n (some (m, true)) a ih = tt
after_comma cs i n (some (m, false)) a ih = ih m a

-- The loop over a list of motors stays inside its arrays if the open entry has room for one motor
-- more than there are commas ahead.
pub list_loop-IsSome :
    (bs text : Bytes) (i : ℕ) (m : Machine)
    → HasRoom (suc (commas bs)) m
    → IsSome (list_loop bs text i m)
unfolding list_loop
list_loop-IsSome [] text i m h =
    ground (arith, set_listed-RoomAfter text 0 (record m { value = text; offset = i + 1 }) h)
list_loop-IsSome (c ∷ cs) text i m h =
    let here = record m { value = text; offset = i + 1 } in
    let fewer = HasRoom-mono (suc (commas cs)) (suc (commas (c ∷ cs))) m (omega arith) h in
    elim (Bool-cases (c == b',')) [
      | inl comma ↦
          let all = suc (commas (c ∷ cs)) in
          let room = HasRoom-mono (suc (suc (commas cs))) all m (ground arith) h in
          ground (
            arith,
            list_loop-IsSome cs (text ++ c ∷ []) (i + 1) m fewer,
            after_comma cs (i + 1) (suc (commas cs)) (set_listed text here)
                (set_listed-RoomAfter text (suc (commas cs)) here room)
                (λ m'. list_loop-IsSome cs [] (i + 1) m'),
          )
      | inr other ↦ ground (
        arith,
        list_loop-IsSome cs (text ++ c ∷ []) (i + 1) m fewer,
        set_listed-RoomAfter text (commas cs) (record here { state = State.cleanup }) fewer,
      )
    ]
