-- ===== src/Gpio/Pins.antt =====
-- core/include/GPIO.h: the pin constants and the macros that read them; core/src/GPIO.c:
-- `int_to_gpio_pin`. An `int` is its 32-bit pattern.
use cnc_robot_control.Common.{ℕ, ◌+◌, ◌-◌, ◌*◌, ◌/◌, ◌%◌, ◌^◌, ◌==◌, if◌then◌else◌}

abbrev pub gpio_main_controller_flag : ℕ
gpio_main_controller_flag = 2 ^ 31

abbrev pub gpio_aon_controller_flag : ℕ
gpio_aon_controller_flag = 2 ^ 30

-- The flags and the line numbers, which fit a byte, share no bit: `|` is a sum.
abbrev pub main_pin : ℕ → ℕ
main_pin line = gpio_main_controller_flag + line

abbrev pub aon_pin : ℕ → ℕ
aon_pin line = gpio_aon_controller_flag + line

-- The pattern of -1.
abbrev pub invalid_pin : ℕ
invalid_pin = 2 ^ 32 - 1

-- `pin & 0x000000FF`
abbrev pub gpio_get_line : ℕ → ℕ
gpio_get_line pin = pin % 256

-- `pin & 0xF0000000`, of a 32-bit pattern: its top four bits.
abbrev pub gpio_get_controller : ℕ → ℕ
gpio_get_controller pin = pin / 2 ^ 28 * 2 ^ 28

unfoldable pub int_to_gpio_pin : ℕ → ℕ
int_to_gpio_pin p =
    if p == 7
    then main_pin 76
    else if p == 8
    then main_pin 144
    else if p == 10
    then main_pin 145
    else if p == 11
    then main_pin 146
    else if p == 12
    then main_pin 72
    else if p == 13
    then main_pin 77
    else if p == 16
    then aon_pin 40
    else if p == 18
    then main_pin 161
    else if p == 19
    then main_pin 109
    else if p == 21
    then main_pin 108
    else if p == 23
    then main_pin 107
    else if p == 24
    then main_pin 110
    else if p == 29
    then main_pin 78
    else if p == 31
    then aon_pin 42
    else if p == 32
    then aon_pin 41
    else if p == 33
    then main_pin 69
    else if p == 35
    then main_pin 75
    else if p == 36
    then main_pin 147
    else if p == 37
    then main_pin 68
    else if p == 38
    then main_pin 74
    else if p == 40
    then main_pin 73
    else invalid_pin
