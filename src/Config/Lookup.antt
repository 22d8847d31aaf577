-- ===== src/Config/Lookup.antt =====
-- control/src/config.c: the look-ups by name.
use cnc_robot_control.Common.{ℕ, zero, suc, ◌+◌, List, [], ◌∷◌, Option, none, some, if◌then◌else◌}
use cnc_robot_control.Config.Chars.{Bytes, strncmp_eq}
use cnc_robot_control.Config.Types.{MotorConfig, AxisConfig, Machine, motor_name_len}

-- The loop of `get_motor_node_by_name` and `get_axis_node_by_name`: `n` rounds from entry `i` on. The
-- result is the index found, if any; a read past the array is a fault.
unfoldable pub find_node {ℓ} :
    {A : Type ℓ} → (A → Bytes) → Bytes → List A → ℕ → ℕ → Option (Option ℕ)
find_node name_of name nodes zero i = some none
find_node name_of name [] (suc n) i = none
find_node name_of name (x ∷ nodes) (suc n) i =
    let rest = find_node name_of name nodes n (i + 1) in
    if strncmp_eq name (name_of x) motor_name_len then some (some i) else rest

unfoldable pub get_motor_node_by_name : Machine → Bytes → Option (Option ℕ)
unfolding find_node
get_motor_node_by_name m name =
    find_node (λ (x : MotorConfig). x.name) name m.motor_list m.motor_list_len 0

-- The loop runs over `axis_list` and is bounded by `motor_list_len`, as in the source.
unfoldable pub get_axis_node_by_name : Machine → Bytes → Option (Option ℕ)
unfolding find_node
get_axis_node_by_name m name =
    find_node (λ (x : AxisConfig). x.name) name m.axis_list m.motor_list_len 0
