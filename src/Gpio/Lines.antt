-- ===== src/Gpio/Lines.antt =====
-- core/src/GPIO.c: `gpio_init_controller`, `GPIO_init_pin` and `GPIO_init_bulk` over libgpiod.
use cnc_robot_control.Common.{
  ℕ, Bool, true, false, not, ◌&&◌, ◌||◌, List, [], ◌∷◌, ◌++◌, Option, none, some, ltb, ◌==◌,
  if◌then◌else◌, length, take,
}
use cnc_robot_control.Gpio.Pins.{
  gpio_main_controller_flag, gpio_aon_controller_flag, gpio_get_line, gpio_get_controller,
}

pub data GpioDirection : Type 0 where
  output input unset : GpioDirection
  other : ℕ → GpioDirection

-- The calls of libgpiod, in the order made; a chip is named by the flag of its controller.
pub data GpioCall : Type 0 where
  chip_open : ℕ → GpioCall
  get_line : ℕ → ℕ → GpioCall
  request_input : ℕ → GpioCall
  request_output : ℕ → ℕ → GpioCall
  release_line : ℕ → GpioCall
  request_bulk_input : List ℕ → GpioCall
  request_bulk_output : List ℕ → List ℕ → GpioCall
  release_lines : List ℕ → GpioCall

-- The static pointers `main_chip` and `aon_chip`, and what was asked of libgpiod.
pub record Gpio : Type 0 where
  pub main_chip : Option ℕ
  pub aon_chip : Option ℕ
  pub gpio_calls : List GpioCall

-- What libgpiod and the allocator answer; `bulk_max_lines` is GPIOD_LINE_BULK_MAX_LINES.
pub record Gpiod : Type 0 where
  pub open_chip : Gpio → ℕ → Option ℕ
  pub find_line : Gpio → ℕ → ℕ → Option ℕ
  pub accepts : Gpio → GpioCall → Bool
  pub malloc_ok : Gpio → Bool
  pub bulk_max_lines : ℕ

abbrev pub called : GpioCall → Gpio → Gpio
called c g = record g { gpio_calls = g.gpio_calls ++ c ∷ [] }

-- `*chip`, and the assignment to it.
abbrev pub chip_of : ℕ → Gpio → Option ℕ
chip_of flag g = if flag == gpio_main_controller_flag then g.main_chip else g.aon_chip

abbrev pub set_chip : ℕ → Option ℕ → Gpio → Gpio
set_chip flag chip g =
    if flag == gpio_main_controller_flag
    then record g { main_chip = chip }
    else record g { aon_chip = chip }

unfoldable pub open_result : Option ℕ → Bool
open_result none = false
open_result (some chip) = true

-- The result is whether the function returns 0.
unfoldable pub gpio_init_controller : Gpiod → ℕ → Gpio → Bool × Gpio
unfolding open_result
gpio_init_controller d pin g =
    let flag = gpio_get_controller pin in
    let opened = d.open_chip g flag in
    if flag == gpio_main_controller_flag || flag == gpio_aon_controller_flag
    then (elim (chip_of flag g) [
      | some chip ↦ (true, g)
      | none ↦ (open_result opened, set_chip flag opened (called (chip_open flag) g))
    ])
    else (false, g)

-- `gpiod_chip_get_line` on the chip of the pin; a NULL chip stands in no call behind
-- `gpio_init_controller`.
abbrev pub get_line_of : Gpiod → ℕ → Gpio → Option ℕ × Gpio
get_line_of d pin g =
    let flag = gpio_get_controller pin in
    let line = gpio_get_line pin in (d.find_line g flag line, called (get_line flag line) g)

-- The `switch` on the direction.
unfoldable pub request_pin : Gpiod → GpioDirection → ℕ → ℕ → Gpio → Bool × Gpio
request_pin d input line init_val g =
    (d.accepts g (request_input line), called (request_input line) g)
request_pin d output line init_val g =
    (d.accepts g (request_output line init_val), called (request_output line init_val) g)
request_pin d unset line init_val g = (true, g)
request_pin d (other n) line init_val g = (false, g)

unfoldable pub keep_or_release : ℕ → Bool × Gpio → Option ℕ × Gpio
keep_or_release line (true, g) = (some line, g)
keep_or_release line (false, g) = (none, called (release_line line) g)

unfoldable pub init_line : Gpiod → GpioDirection → ℕ → Option ℕ × Gpio → Option ℕ × Gpio
unfolding keep_or_release request_pin
init_line d direction init_val (none, g) = (none, g)
init_line d direction init_val (some line, g) =
    keep_or_release line (request_pin d direction line init_val g)

unfoldable pub on_controller :
    {A : Type 0} → Bool × Gpio → (Gpio → Option A × Gpio) → Option A × Gpio
on_controller (false, g) f = (none, g)
on_controller (true, g) f = f g

unfoldable pub gpio_init_pin : Gpiod → ℕ → GpioDirection → ℕ → Gpio → Option ℕ × Gpio
unfolding gpio_init_controller init_line on_controller
gpio_init_pin d pin direction init_val g =
    on_controller (gpio_init_controller d pin g)
      (λ g'. init_line d direction init_val (get_line_of d pin g'))

-- The loop over `pins[]`: the lines added to the bulk so far, and whether it ran to its end.
pub record Collected : Type 0 where
  pub bulk : List ℕ
  pub complete : Bool
  pub gpio : Gpio

unfoldable pub add_line : List ℕ → Option ℕ × Gpio → Collected
add_line bulk (none, g) = record { bulk = bulk; complete = false; gpio = g }
add_line bulk (some line, g) = record { bulk = bulk ++ line ∷ []; complete = true; gpio = g }

unfoldable pub bulk_loop : Gpiod → List ℕ → List ℕ → Gpio → Collected
unfolding add_line on_controller
bulk_loop d [] bulk g = record { bulk = bulk; complete = true; gpio = g }
bulk_loop d (pin ∷ pins) bulk g =
    let c =
      add_line bulk (on_controller (gpio_init_controller d pin g) (λ g'. get_line_of d pin g')) in
    elim c.complete [ true ↦ bulk_loop d pins c.bulk c.gpio | false ↦ c ]

-- The `switch` on the direction: without a request for lines that are only reserved.
unfoldable pub request_lines : Gpiod → GpioDirection → List ℕ → List ℕ → Gpio → Bool × Gpio
request_lines d input bulk init_vals g =
    (d.accepts g (request_bulk_input bulk), called (request_bulk_input bulk) g)
request_lines d output bulk init_vals g = (
  d.accepts g (request_bulk_output bulk init_vals),
  called (request_bulk_output bulk init_vals) g,
)
request_lines d _ bulk init_vals g = (false, g)

unfoldable pub keep_or_free : List ℕ → Bool × Gpio → Option (List ℕ) × Gpio
keep_or_free bulk (true, g) = (some bulk, g)
keep_or_free bulk (false, g) = (none, called (release_lines bulk) g)

unfoldable pub finish_bulk : Gpiod → GpioDirection → List ℕ → Collected → Option (List ℕ) × Gpio
unfolding keep_or_free request_lines
finish_bulk d direction init_vals c =
    if c.complete
    then keep_or_free c.bulk (request_lines d direction c.bulk init_vals c.gpio)
    else keep_or_free c.bulk (false, c.gpio)

abbrev pub is_output : GpioDirection → Bool
is_output output = true
is_output _ = false

abbrev pub is_null : Option (List ℕ) → Bool
is_null none = true
is_null (some xs) = false

unfoldable pub values_of : Option (List ℕ) → List ℕ
values_of none = []
values_of (some xs) = xs

-- Behind the checks; the outer `none` is a read behind the end of `pins[]`.
unfoldable pub start_bulk :
    Gpiod → List ℕ → GpioDirection → List ℕ → ℕ → Gpio → Option (Option (List ℕ) × Gpio)
unfolding finish_bulk
start_bulk d pins direction init_vals count g =
    if not (d.malloc_ok g)
    then some (none, g)
    else if ltb (length pins) count
    then none
    else some (finish_bulk d direction init_vals (bulk_loop d (take count pins) [] g))

unfoldable pub gpio_init_bulk :
    Gpiod
    → Option (List ℕ)
    → GpioDirection
    → Option (List ℕ)
    → ℕ
    → Gpio
    → Option (Option (List ℕ) × Gpio)
unfolding start_bulk values_of
gpio_init_bulk d none direction init_vals count g = some (none, g)
gpio_init_bulk d (some pins) direction init_vals count g =
    if is_null init_vals && is_output direction
    then some (none, g)
    else if count == 0 || ltb d.bulk_max_lines count
    then some (none, g)
    else start_bulk d pins direction (values_of init_vals) count g
