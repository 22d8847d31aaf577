-- ===== src/Config/ScanLaws.antt =====
-- control/src/config.c: the loops over a line stop at its terminator, and split a well-formed line.
use native.Mathlib.Nat.{zero-add, suc-add}
use cnc_robot_control.Common.{
  ℕ, zero, suc, ◌+◌, ◌<◌, ◌≡◌, ◌≢◌, ◌⊎◌, refl, Bool, true, false, ◌||◌, List, [], ◌∷◌, ◌++◌,
  append_assoc, append-nil, some, arith, ◌==◌, length, length-append, get_elem?, drop,
}
use cnc_robot_control.Config.Chars.{Bytes, islower}
use cnc_robot_control.Config.Scan.{
  Scan, scan_param, scan_identifier, scan_value, is_value_char, ends_value,
}
use cnc_robot_control.Config.Types.{State, Message, param_max_len}

-- The loop ends with an error, or in front of position `i + j` with one of the states in `P`.
abbrev pub Stops : (State → Type 0) → Scan → ℕ → Type 0
Stops P s end = (s.next ≡ State.error) ⊎ (P s.next × (s.cursor < end))

abbrev pub AfterParam : State → Type 0
AfterParam s = (s ≡ State.check_param) ⊎ ((s ≡ State.read_identifier) ⊎ (s ≡ State.cleanup))

pub scan_param-Stops :
    (msg : Message) (bs text : Bytes) (i j end : ℕ)
    → get_elem? bs j ≡ some 0
    → i + j ≡ end
    → Stops AfterParam (scan_param msg bs text i) end
unfolding scan_param
scan_param-Stops msg [] text i j end z e = cc
scan_param-Stops msg (c ∷ cs) text i zero end z e = ground arith
scan_param-Stops msg (c ∷ cs) text i (suc j) end z e =
    ground (arith, scan_param-Stops msg cs (text ++ c ∷ []) (i + 1) j end z)

pub scan_identifier-Stops :
    (msg : Message) (bs text : Bytes) (i j end : ℕ)
    → get_elem? bs j ≡ some 0
    → i + j ≡ end
    → Stops (λ s. s ≡ State.set_identifier) (scan_identifier msg bs text i) end
unfolding scan_identifier
scan_identifier-Stops msg [] text i j end z e = cc
scan_identifier-Stops msg (c ∷ cs) text i zero end z e = ground arith
scan_identifier-Stops msg (c ∷ cs) text i (suc j) end z e =
    ground (arith, scan_identifier-Stops msg cs (text ++ c ∷ []) (i + 1) j end z)

pub scan_value-Stops :
    (msg : Message) (bs text : Bytes) (i j end : ℕ)
    → get_elem? bs j ≡ some 0
    → i + j ≡ end
    → Stops (λ s. s ≡ State.set_param) (scan_value msg bs text i) end
unfolding scan_value
scan_value-Stops msg [] text i j end z e = cc
scan_value-Stops msg (c ∷ cs) text i zero end z e = ground arith
scan_value-Stops msg (c ∷ cs) text i (suc j) end z e =
    ground (arith, scan_value-Stops msg cs (text ++ c ∷ []) (i + 1) j end z)

pub get_elem?-drop {ℓ} :
    {A : Type ℓ} (n j : ℕ) (xs : List A) → get_elem? (drop n xs) j ≡ get_elem? xs (n + j)
get_elem?-drop zero j xs = rw zero-add
get_elem?-drop (suc n) j [] = refl
get_elem?-drop (suc n) j (x ∷ xs) = rw suc-add (get_elem?-drop n j xs)

-- All the bytes of a text pass a test.
abbrev pub All : (ℕ → Bool) → Bytes → Type 0
All p [] = Unit
All p (c ∷ cs) = (p c ≡ true) × All p cs

abbrev pub is_param_char : ℕ → Bool
is_param_char c = islower c || c == b'_'

-- The name of a parameter is read up to its `=`.
pub scan_param-text :
    (msg : Message) (name text rest : Bytes) (i : ℕ)
    → All is_param_char name
    → length text + length name < param_max_len
    → scan_param msg (name ++ (b'=' ∷ rest)) text i ≡ record {
      text = text ++ name;
      cursor = i + length name;
      next = State.check_param;
      message = msg;
    }
unfolding scan_param
scan_param-text msg [] text rest i a h = ground (arith, append-nil text)
scan_param-text msg (c ∷ cs) text rest i a h = ground (
  arith,
  scan_param-text msg cs (text ++ c ∷ []) rest (i + 1) a.1,
  append_assoc text (c ∷ []) cs,
  length-append text (c ∷ []),
)

-- A value is read up to a blank, a comment or the end of the line.
pub scan_value-text :
    (msg : Message) (v text rest : Bytes) (c i : ℕ)
    → All is_value_char v
    → is_value_char c ≡ false
    → ends_value c ≡ true
    → length text + length v < param_max_len
    → scan_value msg (v ++ (c ∷ rest)) text i
      ≡ record { text = text ++ v; cursor = i + length v; next = State.set_param; message = msg }
unfolding scan_value
scan_value-text msg [] text rest e i a k d h = ground (arith, append-nil text)
scan_value-text msg (c ∷ cs) text rest e i a k d h = ground (
  arith,
  scan_value-text msg cs (text ++ c ∷ []) rest e (i + 1) a.1 k d,
  append_assoc text (c ∷ []) cs,
  length-append text (c ∷ []),
)

-- What stands behind the terminator of a line is never read.
pub scan_param-slack :
    (msg : Message) (bs slack slack' text : Bytes) (i : ℕ)
    → scan_param msg (bs ++ 0 ∷ slack) text i ≡ scan_param msg (bs ++ 0 ∷ slack') text i
unfolding scan_param
scan_param-slack msg [] slack slack' text i = refl
scan_param-slack msg (c ∷ cs) slack slack' text i =
    ground (arith, scan_param-slack msg cs slack slack' (text ++ c ∷ []) (i + 1))

pub scan_identifier-slack :
    (msg : Message) (bs slack slack' text : Bytes) (i : ℕ)
    → scan_identifier msg (bs ++ 0 ∷ slack) text i ≡ scan_identifier msg (bs ++ 0 ∷ slack') text i
unfolding scan_identifier
scan_identifier-slack msg [] slack slack' text i = refl
scan_identifier-slack msg (c ∷ cs) slack slack' text i =
    ground (arith, scan_identifier-slack msg cs slack slack' (text ++ c ∷ []) (i + 1))

pub scan_value-slack :
    (msg : Message) (bs slack slack' text : Bytes) (i : ℕ)
    → scan_value msg (bs ++ 0 ∷ slack) text i ≡ scan_value msg (bs ++ 0 ∷ slack') text i
unfolding scan_value
scan_value-slack msg [] slack slack' text i = refl
scan_value-slack msg (c ∷ cs) slack slack' text i =
    ground (arith, scan_value-slack msg cs slack slack' (text ++ c ∷ []) (i + 1))

-- No loop over a line takes the machine to the end of the file.
pub scan_param-ne-finished :
    (msg : Message) (bs text : Bytes) (i : ℕ) → (scan_param msg bs text i).next ≢ State.finished
unfolding scan_param
scan_param-ne-finished msg [] text i = ground arith
scan_param-ne-finished msg (c ∷ cs) text i =
    ground (arith, scan_param-ne-finished msg cs (text ++ c ∷ []) (i + 1))

pub scan_identifier-ne-finished :
    (msg : Message) (bs text : Bytes) (i : ℕ)
    → (scan_identifier msg bs text i).next ≢ State.finished
unfolding scan_identifier
scan_identifier-ne-finished msg [] text i = ground arith
scan_identifier-ne-finished msg (c ∷ cs) text i =
    ground (arith, scan_identifier-ne-finished msg cs (text ++ c ∷ []) (i + 1))

pub scan_value-ne-finished :
    (msg : Message) (bs text : Bytes) (i : ℕ) → (scan_value msg bs text i).next ≢ State.finished
unfolding scan_value
scan_value-ne-finished msg [] text i = ground arith
scan_value-ne-finished msg (c ∷ cs) text i =
    ground (arith, scan_value-ne-finished msg cs (text ++ c ∷ []) (i + 1))
