-- ===== src/Stepper/World.antt =====
-- core/src/Stepper.c: the Stepper objects, the move requests, and the calls of other libraries.
-- A pointer to an object is a number, and NULL is `none`.
use cnc_robot_control.Common.{
  ℕ, Bool, true, false, List, [], ◌∷◌, ◌++◌, Option, none, some, ◌==◌, if◌then◌else◌,
}
use cnc_robot_control.Common.Int.{ℤ}
use cnc_robot_control.Time.Calc.{Timespec}

pub record Stepper : Type 0 where
  pub dir_pin : ℕ
  pub step_pin : ℕ
  pub current_req : Option ℕ
  pub shared_mutex : Option ℕ
  pub name : List ℕ
  pub pos_direction : ℕ
  pub curr_direction : ℕ
  pub half_period : ℕ
  pub microsteps_per_rotation : ℕ
  pub steps : ℤ
  pub stop : Bool
  pub req_available : Bool

-- The array `motor_list` holds `count` motors from its beginning; `pin_bulk` is the lines of its bulk.
pub record StepperReq : Type 0 where
  pub motor_list : List ℕ
  pub motor_waiting : Option ℕ
  pub pin_bulk : List ℕ
  pub count : ℕ
  pub req_steps : ℕ

-- What the code asks of the GPIO driver and of the threads, in the order of the calls.
pub data Call : Type 0 where
  set_value : ℕ → ℕ → Call
  request_bulk release_bulk : List ℕ → Call
  write_bulk : List ℕ → Bool → Call
  nanosleep : Timespec → Call
  signal_req signal_wait : ℕ → Call

-- The mutex of a request bears the request's number.
pub record World : Type 0 where
  pub motors : ℕ → Stepper
  pub requests : ℕ → Option StepperReq
  pub next_req : ℕ
  pub calls : List Call

-- The answers of the driver and of the allocator, which may depend on all that happened before.
pub record Env : Type 0 where
  pub set_value_ok : World → ℕ → ℕ → Bool
  pub malloc_block_ok : World → Bool
  pub request_bulk_ok : World → List ℕ → Bool
  pub malloc_mutex_ok : World → Bool
  pub mutex_init_ok : World → Bool

abbrev pub put : ℕ → Stepper → World → World
put p s w = record w { motors = λ q. if p == q then s else w.motors q }

abbrev pub log : Call → World → World
log c w = record w { calls = w.calls ++ c ∷ [] }

abbrev pub is_some {ℓ} : {A : Type ℓ} → Option A → Bool
is_some none = false
is_some (some a) = true

-- `motor->shared_mutex != NULL`
abbrev pub stepper_is_busy : World → ℕ → Bool
stepper_is_busy w p = is_some (w.motors p).shared_mutex
