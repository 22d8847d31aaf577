-- ===== src/Config/Entries.antt =====
-- control/src/config.c: what the state machine lets into the entries of `motor_list`.
use mathlib.Core.Option.{some-injective}
use mathlib.Core.Path.{subst}
use cnc_robot_control.Common.{
  ℕ, zero, suc, ◌-◌, ◌^◌, ◌≤◌, ◌<◌, ◌≡◌, ◌⊎◌, inr, refl, true, List, [], ◌∷◌, Option, none, some,
  arith, length, get_elem?, set, take,
}
use cnc_robot_control.Common.Int.{◌>>=◌}
use cnc_robot_control.Config.Chars.{Bytes}
use cnc_robot_control.Config.Setters.{copy_name, set_motor, set_axis}
use cnc_robot_control.Config.Types.{MotorConfig, AxisConfig, Machine, update_last, motor_name_len}
use cnc_robot_control.Gpio.Pins.{
  gpio_get_controller, gpio_get_line, gpio_main_controller_flag, gpio_aon_controller_flag,
}
use cnc_robot_control.Stepper.Values.{is_valid_microstep}

-- A constant of the header: the flag of a controller and the number of a line.
abbrev pub IsHeaderPin : ℕ → Type 0
IsHeaderPin pin =
    ((gpio_get_controller pin ≡ gpio_main_controller_flag)
      ⊎ (gpio_get_controller pin ≡ gpio_aon_controller_flag))
    × (gpio_get_line pin < 162)

-- Each field is not yet set, or has a value that `stepper_init` accepts.
abbrev pub IsFormed : MotorConfig → Type 0
IsFormed x =
    (length x.name < motor_name_len)
    × ((x.step_pin ≡ 0) ⊎ IsHeaderPin x.step_pin)
    × ((x.dir_pin ≡ 0) ⊎ IsHeaderPin x.dir_pin)
    × ((x.microstep ≡ 0) ⊎ (is_valid_microstep x.microstep ≡ true))
    × (x.steps_rot < 2 ^ 31)
    × (x.direction ≤ 2)

abbrev pub AllOf {ℓ} : {A : Type ℓ} → (A → Type 0) → List A → Type 0
AllOf P [] = Unit
AllOf P (x ∷ xs) = P x × AllOf P xs

pub AllOf-set {ℓ} :
    {A : Type ℓ} (P : A → Type 0) (xs : List A) (i : ℕ) (v : A)
    → AllOf P xs
    → P v
    → AllOf P (set xs i v)
AllOf-set P [] i v h p = tt
AllOf-set P (x ∷ xs) zero v h p = (p, h.1)
AllOf-set P (x ∷ xs) (suc i) v h p = (h.0, AllOf-set P xs i v h.1 p)

abbrev pub AllIf {ℓ} : {A : Type ℓ} → (A → Type 0) → Option (List A) → Type 0
AllIf P none = Unit
AllIf P (some xs) = AllOf P xs

abbrev pub FormedIf : Option Machine → Type 0
FormedIf none = Unit
FormedIf (some m) = AllOf IsFormed m.motor_list

module _ {ℓ} {A : Type ℓ} (P : A → Type 0) where
  put_at :
      (f : A → A) (xs : List A) (i : ℕ) (o : Option A)
      → AllOf P xs
      → ((x : A) → P x → P (f x))
      → ((x : A) → o ≡ some x → P x)
      → AllIf P (elim o [ none ↦ none | some x ↦ some (set xs i (f x)) ])
  put_at f xs i none h k g = tt
  put_at f xs i (some x) h k g = AllOf-set P xs i (f x) h (k x (g x refl))

  pub at_index : (xs : List A) (i : ℕ) → AllOf P xs → (x : A) → get_elem? xs i ≡ some x → P x
  at_index [] i h x e = cc
  at_index (y ∷ xs) zero h x e = subst P (some-injective y x e) h.0
  at_index (y ∷ xs) (suc i) h x e = at_index xs i h.1 x e

  pub update_last-AllIf :
      (xs : List A) (len : ℕ) (f : A → A)
      → AllOf P xs
      → ((x : A) → P x → P (f x))
      → AllIf P (update_last xs len f)
  unfolding update_last
  update_last-AllIf xs len f h k =
      ground (arith, put_at f xs (len - 1) (get_elem? xs (len - 1)) h k (at_index xs (len - 1) h))

after_update :
    (m : Machine) (o : Option (List MotorConfig))
    → AllIf IsFormed o
    → FormedIf (o >>= λ xs. some (record m { motor_list = xs }))
after_update m none h = tt
after_update m (some xs) h = h

set_motor-FormedIf :
    (f : MotorConfig → MotorConfig) (m : Machine)
    → AllOf IsFormed m.motor_list
    → ((x : MotorConfig) → IsFormed x → IsFormed (f x))
    → FormedIf (set_motor f m)
unfolding set_motor
set_motor-FormedIf f m h k =
    after_update m (update_last m.motor_list m.motor_list_len f)
      (update_last-AllIf IsFormed m.motor_list m.motor_list_len f h k)

length-take-lt : (n : ℕ) (s : Bytes) → length (take n s) < suc n
length-take-lt zero s = omega arith
length-take-lt (suc n) [] = omega arith
length-take-lt (suc n) (c ∷ s) = omega (arith, length-take-lt n s)

module _ (m : Machine) (h : AllOf IsFormed m.motor_list) where
  pub name-FormedIf :
      FormedIf (set_motor (λ x. record x { name = copy_name motor_name_len m.value }) m)
  name-FormedIf =
      set_motor-FormedIf _ m h λ x k. (length-take-lt 31 m.value, k.1, k.2, k.3, k.4, k.5)

  pub pin-FormedIf :
      (pin : ℕ)
      → IsHeaderPin pin
      → FormedIf (set_motor (λ x. record x { step_pin = pin }) m)
        × FormedIf (set_motor (λ x. record x { dir_pin = pin }) m)
  pin-FormedIf pin p = (
    set_motor-FormedIf _ m h λ x k. (k.0, inr p, k.2, k.3, k.4, k.5),
    set_motor-FormedIf _ m h λ x k. (k.0, k.1, inr p, k.3, k.4, k.5),
  )

  pub steps_rot-FormedIf :
      (n : ℕ) → n < 2 ^ 31 → FormedIf (set_motor (λ x. record x { steps_rot = n }) m)
  steps_rot-FormedIf n p = set_motor-FormedIf _ m h λ x k. (k.0, k.1, k.2, k.3, p, k.5)

  pub direction-FormedIf :
      (n : ℕ) → n ≤ 2 → FormedIf (set_motor (λ x. record x { direction = n }) m)
  direction-FormedIf n p = set_motor-FormedIf _ m h λ x k. (k.0, k.1, k.2, k.3, k.4, p)

  pub microstep-FormedIf :
      (n : ℕ)
      → is_valid_microstep n ≡ true
      → FormedIf (set_motor (λ x. record x { microstep = n }) m)
  microstep-FormedIf n p = set_motor-FormedIf _ m h λ x k. (k.0, k.1, k.2, inr p, k.4, k.5)

  pub set_axis-FormedIf : (f : AxisConfig → AxisConfig) → FormedIf (set_axis f m)
  unfolding set_axis
  set_axis-FormedIf f = ground arith
