-- ===== src/Ipc/Buffer.antt =====
-- control/include/ipc.h: `pos_data_t` and `pos_buffer_t`; control/src/ipc.c: `init_pos_buffer`,
-- `pos_buffer_push` and `pos_buffer_pop`, statement by statement. A position is a `double`, of which
-- the code uses nothing but its value: its type is a parameter. The array
-- `data` is `slots`.
use cnc_robot_control.Common.{
  ℕ, ◌+◌, ◌-◌, ◌%◌, Bool, true, false, not, ◌&&◌, Option, none, some, ◌==◌, if◌then◌else◌,
}
use cnc_robot_control.Common.Int.{pos}
use cnc_robot_control.Time.Calc.{Timespec}

pub record PosData (A : Type 0) : Type 0 where
  pub position : A
  pub timestamp : Timespec

pub record PosBuffer (A : Type 0) : Type 0 where
  pub slots : ℕ → PosData A
  pub new_available : Bool
  pub w_flag : Bool
  pub r_ptr : ℕ

-- `n ^ 1`
abbrev pub xor_one : ℕ → ℕ
xor_one n = if n % 2 == 0 then n + 1 else n - 1

abbrev pub put_data : {A : Type 0} → ℕ → PosData A → PosBuffer A → PosBuffer A
put_data i d b = record b { slots = λ j. if i == j then d else b.slots j }

abbrev pub zero_data : {A : Type 0} → A → PosData A
zero_data zero = record { position = zero; timestamp = record { tv_sec = pos 0; tv_nsec = pos 0 } }

-- A buffer whose bytes are all 0; `zero` is the position of this form.
abbrev pub zeroed : {A : Type 0} → A → PosBuffer A
zeroed zero = record {
  slots = λ i. zero_data zero;
  new_available = false;
  w_flag = false;
  r_ptr = 0;
}

unfoldable pub init_pos_buffer : {A : Type 0} → A → Option (PosBuffer A) → Option (PosBuffer A)
init_pos_buffer zero none = none
init_pos_buffer zero (some b) = some (zeroed zero)

-- The five statements of `pos_buffer_push`; `t` is the time that the clock gives.
module _ {A : Type 0} where
  abbrev pub push_begin : PosBuffer A → PosBuffer A
  push_begin b = record b { w_flag = true }

  abbrev pub push_position : A → PosBuffer A → PosBuffer A
  push_position p b = let i = xor_one b.r_ptr in put_data i (record (b.slots i) { position = p }) b

  abbrev pub push_timestamp : Timespec → PosBuffer A → PosBuffer A
  push_timestamp t b =
      let i = xor_one b.r_ptr in put_data i (record (b.slots i) { timestamp = t }) b

  abbrev pub push_announce : PosBuffer A → PosBuffer A
  push_announce b = record b { new_available = true }

  abbrev pub push_end : PosBuffer A → PosBuffer A
  push_end b = record b { w_flag = false }

  -- The test of `pos_buffer_pop`, the two statements under it, and the copy.
  abbrev pub pop_check : PosBuffer A → Bool
  pop_check b = not b.w_flag && b.new_available

  abbrev pub pop_flip : PosBuffer A → PosBuffer A
  pop_flip b = record b { r_ptr = xor_one b.r_ptr }

  abbrev pub pop_taken : PosBuffer A → PosBuffer A
  pop_taken b = record b { new_available = false }

  abbrev pub pop_copy : PosBuffer A → PosData A
  pop_copy b = b.slots b.r_ptr

  unfoldable pub pos_buffer_push : Option (PosBuffer A) → A → Timespec → Option (PosBuffer A)
  pos_buffer_push none p t = none
  pos_buffer_push (some b) p t =
      some (push_end (push_announce (push_timestamp t (push_position p (push_begin b)))))

  unfoldable pub pos_buffer_pop : PosBuffer A → PosData A × PosBuffer A
  pos_buffer_pop b = let b' = if pop_check b then pop_taken (pop_flip b) else b in (pop_copy b', b')
