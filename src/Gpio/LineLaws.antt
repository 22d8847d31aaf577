-- ===== src/Gpio/LineLaws.antt =====
-- core/src/GPIO.c: what the functions that reserve lines promise of the chips.
use cnc_robot_control.Common.{
  ℕ, ◌+◌, ◌≡◌, ◌∙◌, refl, Bool, true, false, List, [], ◌∷◌, ◌++◌, Option, none, some, arith, ◌==◌,
  if◌then◌else◌, take, Bool-cases, inl, inr,
}
use cnc_robot_control.Gpio.Lines.{
  GpioDirection, output, input, unset, other, GpioCall, chip_open, get_line, request_input,
  request_output, release_line, request_bulk_input, request_bulk_output, release_lines, Gpio, Gpiod,
  called, chip_of, gpio_init_controller, get_line_of, request_pin, keep_or_release, init_line,
  on_controller, gpio_init_pin, Collected, add_line, bulk_loop, request_lines, keep_or_free,
  finish_bulk, start_bulk, values_of, gpio_init_bulk,
}
use cnc_robot_control.Gpio.Pins.{gpio_get_controller, gpio_get_line}

-- How often a chip was opened.
abbrev pub opens : ℕ → List GpioCall → ℕ
opens flag [] = 0
opens flag (chip_open f ∷ cs) = (if f == flag then 1 else 0) + opens flag cs
opens flag (_ ∷ cs) = opens flag cs

opens-append :
    (flag : ℕ) (xs : List GpioCall) (c : GpioCall)
    → opens flag (xs ++ c ∷ []) ≡ opens flag xs + opens flag (c ∷ [])
opens-append flag [] c = ground arith
opens-append flag (x ∷ xs) c = ground (arith, opens-append flag xs c)

-- The chip is open in `g'`, and was opened as often as in `g`.
abbrev pub Kept : ℕ → ℕ → Gpio → Gpio → Type 0
Kept flag chip g g' =
    (chip_of flag g' ≡ some chip) × (opens flag g'.gpio_calls ≡ opens flag g.gpio_calls)

abbrev Once : ℕ → ℕ → Gpio → Gpio → Type 0
Once flag chip g g' = chip_of flag g ≡ some chip → Kept flag chip g g'

Once-then :
    (flag chip : ℕ) (g g' g'' : Gpio)
    → Once flag chip g g'
    → Once flag chip g' g''
    → Once flag chip g g''
Once-then flag chip g g' g'' a b e = let (k, n) = a e in let (k', n') = b k in (k', n' ∙ n)

called-Once :
    (flag chip : ℕ) (c : GpioCall) (g : Gpio)
    → opens flag (c ∷ []) ≡ 0
    → Once flag chip g (called c g)
called-Once flag chip c g z e = (e, ground (arith, opens-append flag g.gpio_calls c))

module _ (flag chip : ℕ) (d : Gpiod) where
  controller-Once : (pin : ℕ) (g : Gpio) → Once flag chip g (gpio_init_controller d pin g).1
  unfolding gpio_init_controller
  controller-Once pin g e =
      ground (arith, opens-append flag g.gpio_calls (chip_open (gpio_get_controller pin)))

  request-Once :
      (dir : GpioDirection) (line v : ℕ) (g : Gpio)
      → Once flag chip g (request_pin d dir line v g).1
  unfolding request_pin
  request-Once output line v g = called-Once flag chip (request_output line v) g refl
  request-Once input line v g = called-Once flag chip (request_input line) g refl
  request-Once unset line v g = λ e. (e, refl)
  request-Once (other n) line v g = λ e. (e, refl)

  keep-Once :
      (line : ℕ) (g : Gpio) (r : Bool × Gpio)
      → Once flag chip g r.1
      → Once flag chip g (keep_or_release line r).1
  unfolding keep_or_release
  keep-Once line g (true, g') o = o
  keep-Once line g (false, g') o =
      Once-then flag chip g g' (called (release_line line) g') o
        (called-Once flag chip (release_line line) g' refl)

  init_line-Once :
      (dir : GpioDirection) (v : ℕ) (g : Gpio) (r : Option ℕ × Gpio)
      → Once flag chip g r.1
      → Once flag chip g (init_line d dir v r).1
  unfolding init_line
  init_line-Once dir v g (none, g') o = o
  init_line-Once dir v g (some line, g') o =
      keep-Once line g (request_pin d dir line v g')
        (Once-then flag chip g g' (request_pin d dir line v g').1 o (request-Once dir line v g'))

  on_controller-Once :
      {A : Type 0} (g : Gpio) (r : Bool × Gpio) (f : Gpio → Option A × Gpio)
      → Once flag chip g r.1
      → ((g' : Gpio) → Once flag chip g' (f g').1)
      → Once flag chip g (on_controller r f).1
  unfolding on_controller
  on_controller-Once g (false, g') f o h = o
  on_controller-Once g (true, g') f o h = Once-then flag chip g g' (f g').1 o (h g')

  line-Once : (pin : ℕ) (g : Gpio) → Once flag chip g (get_line_of d pin g).1
  line-Once pin g =
      called-Once flag chip (get_line (gpio_get_controller pin) (gpio_get_line pin)) g refl

  -- However a call of `GPIO_init_pin` ends, a chip that was open before it stays open, with the same pointer, and is
  -- not opened again.
  pub gpio_init_pin-once :
      (pin : ℕ) (dir : GpioDirection) (v : ℕ) (g : Gpio)
      → chip_of flag g ≡ some chip
      → Kept flag chip g (gpio_init_pin d pin dir v g).1
  unfolding gpio_init_pin
  gpio_init_pin-once pin dir v g =
      on_controller-Once g (gpio_init_controller d pin g) _ (controller-Once pin g)
        (λ g'. init_line-Once dir v g' (get_line_of d pin g') (line-Once pin g'))

  add_line-Once :
      (bulk : List ℕ) (g : Gpio) (r : Option ℕ × Gpio)
      → Once flag chip g r.1
      → Once flag chip g (add_line bulk r).gpio
  unfolding add_line
  add_line-Once bulk g (none, g') o = o
  add_line-Once bulk g (some line, g') o = o

  bulk_loop-Once : (pins bulk : List ℕ) (g : Gpio) → Once flag chip g (bulk_loop d pins bulk g).gpio
  unfolding bulk_loop
  bulk_loop-Once [] bulk g = λ e. (e, refl)
  bulk_loop-Once (pin ∷ pins) bulk g =
      let r = on_controller (gpio_init_controller d pin g) (λ g'. get_line_of d pin g') in
      let c = add_line bulk r in
      let first : Once flag chip g c.gpio = add_line-Once bulk g r (
        on_controller-Once g (gpio_init_controller d pin g) (λ g'. get_line_of d pin g')
          (controller-Once pin g) (line-Once pin)) in
      elim (Bool-cases c.complete) [
        | inl all ↦
            rw (all, bulk_loop)
              (Once-then flag chip g c.gpio (bulk_loop d pins c.bulk c.gpio).gpio first
                (bulk_loop-Once pins c.bulk c.gpio))
        | inr part ↦ rw (part, bulk_loop) first
      ]

  request_lines-Once :
      (dir : GpioDirection) (bulk vs : List ℕ) (g : Gpio)
      → Once flag chip g (request_lines d dir bulk vs g).1
  unfolding request_lines
  request_lines-Once output bulk vs g = called-Once flag chip (request_bulk_output bulk vs) g refl
  request_lines-Once input bulk vs g = called-Once flag chip (request_bulk_input bulk) g refl
  request_lines-Once unset bulk vs g = λ e. (e, refl)
  request_lines-Once (other n) bulk vs g = λ e. (e, refl)

  keep_or_free-Once :
      (bulk : List ℕ) (g : Gpio) (r : Bool × Gpio)
      → Once flag chip g r.1
      → Once flag chip g (keep_or_free bulk r).1
  unfolding keep_or_free
  keep_or_free-Once bulk g (true, g') o = o
  keep_or_free-Once bulk g (false, g') o =
      Once-then flag chip g g' (called (release_lines bulk) g') o
        (called-Once flag chip (release_lines bulk) g' refl)

  finish_bulk-Once :
      (dir : GpioDirection) (vs : List ℕ) (g : Gpio) (c : Collected)
      → Once flag chip g c.gpio
      → Once flag chip g (finish_bulk d dir vs c).1
  unfolding finish_bulk
  finish_bulk-Once dir vs g c o = elim (Bool-cases c.complete) [
    | inl all ↦ rw all (
        keep_or_free-Once c.bulk g (request_lines d dir c.bulk vs c.gpio) (
          Once-then flag chip g c.gpio (request_lines d dir c.bulk vs c.gpio).1 o
            (request_lines-Once dir c.bulk vs c.gpio)))
    | inr part ↦ rw part (keep_or_free-Once c.bulk g (false, c.gpio) o)
  ]

-- What a call leaves of the chips, if it reads no pin behind the end of the array.
abbrev pub KeptIf : ℕ → ℕ → Gpio → Option (Option (List ℕ) × Gpio) → Type 0
KeptIf flag chip g none = Unit
KeptIf flag chip g (some (bulk, g')) = Kept flag chip g g'

-- However a call of `GPIO_init_bulk` ends, and however many pins it was given: a chip that was open
-- before it stays open, with the same pointer, and is not opened again.
pub gpio_init_bulk-once :
    (flag chip : ℕ) (d : Gpiod) (pins : Option (List ℕ)) (dir : GpioDirection)
    → (vs : Option (List ℕ)) (count : ℕ) (g : Gpio) → chip_of flag g ≡ some chip
    → KeptIf flag chip g (gpio_init_bulk d pins dir vs count g)
unfolding gpio_init_bulk start_bulk
gpio_init_bulk-once flag chip d none dir vs count g e = (e, refl)
gpio_init_bulk-once flag chip d (some pins) dir vs count g e =
    let c = bulk_loop d (take count pins) [] g in
    let kept : Kept flag chip g (finish_bulk d dir (values_of vs) c).1 =
      finish_bulk-Once flag chip d dir (values_of vs) g c
        (bulk_loop-Once flag chip d (take count pins) [] g) e in
    ground (arith, kept, e)

-- Whether a call has given a bulk.
abbrev pub gives_bulk : Option (Option (List ℕ) × Gpio) → Bool
gives_bulk (some (some bulk, g)) = true
gives_bulk _ = false

finish_bulk-unset :
    (d : Gpiod) (vs : List ℕ) (c : Collected)
    → finish_bulk d unset vs c ≡ (none, called (release_lines c.bulk) c.gpio)
unfolding finish_bulk request_lines keep_or_free
finish_bulk-unset d vs c = ground arith

-- `GPIO_init_bulk` never gives a bulk for GPIO_DIRECTION_NONE, which its documentation lists among the
-- directions.
pub gpio_init_bulk-unset :
    (d : Gpiod) (pins vs : Option (List ℕ)) (count : ℕ) (g : Gpio)
    → gives_bulk (gpio_init_bulk d pins unset vs count g) ≡ false
unfolding gpio_init_bulk start_bulk
gpio_init_bulk-unset d none vs count g = refl
gpio_init_bulk-unset d (some pins) vs count g =
    ground (arith, finish_bulk-unset d (values_of vs) (bulk_loop d (take count pins) [] g))
