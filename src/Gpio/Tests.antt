-- ===== src/Gpio/Tests.antt =====
-- core/src/GPIO.c at pins of the header.
use cnc_robot_control.Common.{ℕ, ◌+◌, ◌<◌, ◌≤◌, ◌≡◌, ◌≢◌, ◌⊎◌, arith}
use cnc_robot_control.Common.{true, [], ◌∷◌, none, some, refl}
use cnc_robot_control.Gpio.LineLaws.{KeptIf, gpio_init_bulk-once}
use cnc_robot_control.Gpio.Lines.{Gpio, Gpiod, input, chip_open, gpio_init_bulk}
use cnc_robot_control.Gpio.PinLaws.{int_to_gpio_pin_lem}
use cnc_robot_control.Gpio.Pins.{
  gpio_main_controller_flag, gpio_aon_controller_flag, invalid_pin, gpio_get_line,
  gpio_get_controller, int_to_gpio_pin,
}

header_pin : int_to_gpio_pin 7 ≢ invalid_pin
unfolding int_to_gpio_pin
header_pin = ground arith

int_to_gpio_pin_lem_example :
    let pin = int_to_gpio_pin 7 in
    (7 ≤ 7)
    × (7 ≤ 40)
    × ((gpio_get_controller pin ≡ gpio_main_controller_flag)
        ⊎ (gpio_get_controller pin ≡ gpio_aon_controller_flag))
    × (pin ≡ gpio_get_controller pin + gpio_get_line pin)
    × (gpio_get_line pin < 162)
int_to_gpio_pin_lem_example = int_to_gpio_pin_lem 7 header_pin

abbrev pin_7 : ℕ
pin_7 = gpio_main_controller_flag + 76

-- A driver that opens every chip, finds every line and accepts every request.
abbrev granting : Gpiod
granting = record {
  open_chip = λ g flag. some 1;
  find_line = λ g flag line. some line;
  accepts = λ g c. true;
  malloc_ok = λ g. true;
  bulk_max_lines = 64;
}

abbrev opened : Gpio
opened = record {
  main_chip = some 1;
  aon_chip = none;
  gpio_calls = chip_open gpio_main_controller_flag ∷ [];
}

gpio_init_bulk-once_example :
    KeptIf gpio_main_controller_flag 1 opened
      (gpio_init_bulk granting (some (pin_7 ∷ [])) input none 1 opened)
gpio_init_bulk-once_example =
    gpio_init_bulk-once gpio_main_controller_flag 1 granting (some (pin_7 ∷ [])) input none 1 opened
      refl
