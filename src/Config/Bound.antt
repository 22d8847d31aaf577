-- ===== src/Config/Bound.antt =====
-- control/src/config.c: what a file may hold so that the arrays of the state machine have room for it,
-- told from its lines alone.
pub mod Listing
pub mod Lines
pub mod Spare
pub mod Next
pub mod Rounds
pub mod Runs
use cnc_robot_control.Common.{ℕ, ◌+◌, ◌-◌, ◌≤◌, ◌<◌, ◌||◌, List, [], ◌∷◌, ◌++◌, ◌==◌, if◌then◌else◌}
use cnc_robot_control.Config.Chars.{Bytes, codes, islower, strncmp_eq}
use cnc_robot_control.Config.Scan.{is_value_char}
use cnc_robot_control.Config.Types.{Identifiers, Line, line, read_error}

-- What a line is: `[section]`, `motors=list`, or any other.
pub data Kind : Type 0 where
  section : Identifiers → Kind
  listing : Bytes → Kind
  other : Kind

abbrev pub section_of : Bytes → Identifiers
section_of name =
    if strncmp_eq name (codes "motor") 5
    then Identifiers.motor
    else if strncmp_eq name (codes "axis") 4
    then Identifiers.axis
    else Identifiers.invalid_type

unfoldable pub identifier : Bytes → Bytes → Identifiers
identifier name [] = Identifiers.invalid_type
identifier name (c ∷ cs) =
    let more = identifier (name ++ c ∷ []) cs in
    if islower c then more else if c == b']' then section_of name else Identifiers.invalid_type

abbrev pub assigned : Bytes → Bytes → Kind
assigned name text = if strncmp_eq name (codes "motors") 6 then listing text else other

unfoldable pub kind_of : Bytes → Bytes → Kind
unfolding identifier
kind_of name [] = other
kind_of name (c ∷ cs) =
    let more = kind_of (name ++ c ∷ []) cs in
    if islower c || c == b'_'
    then more
    else if c == b'='
    then assigned name cs
    else if c == b'['
    then section (identifier [] cs)
    else other

-- The names in a list of motors.
abbrev pub names : Bytes → ℕ
names [] = 1
names (c ∷ cs) =
    let more = names cs in if is_value_char c then more else if c == b',' then more + 1 else 1

-- A line leaves room: there are eight entries for motors and for axes, and eight motors in an axis, of
-- which the open one has `room` left; `Rest` is the same of the lines behind.
abbrev pub FitsKind : Kind → (ℕ → ℕ → ℕ → Type 0) → ℕ → ℕ → ℕ → Type 0
FitsKind (section Identifiers.motor) Rest motors axes room =
    (motors + 1 ≤ 8) × Rest (motors + 1) axes room
FitsKind (section Identifiers.axis) Rest motors axes room =
    (axes + 1 ≤ 8) × Rest motors (axes + 1) 8
FitsKind (section Identifiers.invalid_type) Rest motors axes room = Unit
FitsKind (listing text) Rest motors axes room =
    (0 < axes) × (names text ≤ room) × Rest motors axes (room - names text)
FitsKind other Rest motors axes room = Rest motors axes room

abbrev pub Fits : List Line → ℕ → ℕ → ℕ → Type 0
Fits [] motors axes room = Unit
Fits (read_error ∷ rest) motors axes room = Unit
Fits (line text slack ∷ rest) motors axes room =
    FitsKind (kind_of [] text) (Fits rest) motors axes room
