-- ===== src/Gpio/PinLaws.antt =====
-- core/src/GPIO.c: what `int_to_gpio_pin` promises of the pins that it accepts.
use cnc_robot_control.Common.{
  ℕ, ◌+◌, ◌<◌, ◌≤◌, ◌≡◌, ◌≢◌, ◌⊎◌, sym, ap, ◌∙◌, arith, ◌==◌, if◌then◌else◌,
}
use cnc_robot_control.Gpio.Pins.{
  gpio_main_controller_flag, gpio_aon_controller_flag, invalid_pin, gpio_get_line,
  gpio_get_controller, int_to_gpio_pin,
}

-- A pin that is accepted is on the header, names one of the two controllers and no other bits than
-- that flag and a line number below 162.
pub int_to_gpio_pin_lem :
    (p : ℕ)
    → int_to_gpio_pin p ≢ invalid_pin
    → let pin = int_to_gpio_pin p in
      (7 ≤ p)
      × (p ≤ 40)
      × ((gpio_get_controller pin ≡ gpio_main_controller_flag)
          ⊎ (gpio_get_controller pin ≡ gpio_aon_controller_flag))
      × (pin ≡ gpio_get_controller pin + gpio_get_line pin)
      × (gpio_get_line pin < 162)
unfolding int_to_gpio_pin
int_to_gpio_pin_lem p h = ground arith

-- The pin number of the header that a controller and a line belong to.
pin_number : ℕ → ℕ
pin_number pin =
    if pin == main 76
    then 7
    else if pin == main 144
    then 8
    else if pin == main 145
    then 10
    else if pin == main 146
    then 11
    else if pin == main 72
    then 12
    else if pin == main 77
    then 13
    else if pin == aon 40
    then 16
    else if pin == main 161
    then 18
    else if pin == main 109
    then 19
    else if pin == main 108
    then 21
    else if pin == main 107
    then 23
    else if pin == main 110
    then 24
    else if pin == main 78
    then 29
    else if pin == aon 42
    then 31
    else if pin == aon 41
    then 32
    else if pin == main 69
    then 33
    else if pin == main 75
    then 35
    else if pin == main 147
    then 36
    else if pin == main 68
    then 37
    else if pin == main 74
    then 38
    else 40
  where
    main : ℕ → ℕ
    main n = gpio_main_controller_flag + n

    aon : ℕ → ℕ
    aon n = gpio_aon_controller_flag + n

pin_number-int_to_gpio_pin :
    (p : ℕ) → int_to_gpio_pin p ≢ invalid_pin → pin_number (int_to_gpio_pin p) ≡ p
unfolding pin_number int_to_gpio_pin
pin_number-int_to_gpio_pin p h = ground arith

same_pin :
    (p q : ℕ) → int_to_gpio_pin p ≢ invalid_pin → int_to_gpio_pin p ≡ int_to_gpio_pin q → p ≡ q
same_pin p q h e =
    sym (pin_number-int_to_gpio_pin p h)
    ∙ ap pin_number e
    ∙ pin_number-int_to_gpio_pin q (λ k. h (e ∙ k))

-- No two pins of the header share a line: an accepted pin number and a different number never have
-- the same constant.
pub int_to_gpio_pin-injective :
    (p q : ℕ) → int_to_gpio_pin p ≢ invalid_pin → p ≢ q → int_to_gpio_pin p ≢ int_to_gpio_pin q
int_to_gpio_pin-injective p q h n e = n (same_pin p q h e)
