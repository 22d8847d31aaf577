-- ===== src/Config/Destruction.antt =====
-- control/src/config.c and core/src/Stepper.c: a motor from `stepper_init` to `stepper_destroy`.
use cnc_robot_control.Common.{
  take-long, ℕ, ◌<◌, ◌≡◌, ◌∙◌, refl, ap, true, false, [], ◌∷◌, ◌++◌, some, arith, if◌then◌else◌,
  length, take,
}
use cnc_robot_control.Config.Creation.{Willing, threaded, start_thread-some, stepper_init-thread}
use cnc_robot_control.Config.Entries.{IsFormed}
use cnc_robot_control.Config.Types.{MotorConfig, validate_motor_node}
use cnc_robot_control.Stepper.Control.{stepper_stop}
use cnc_robot_control.Stepper.CountLaws.{==-refl}
use cnc_robot_control.Stepper.Destroy.{release_motor, stepper_destroy}
use cnc_robot_control.Stepper.Lifecycle.{Board, Platform, stepper_init}
use cnc_robot_control.Stepper.World.{Stepper, World, is_some, put, stepper_is_busy}
use cnc_robot_control.Tasks.KillLaws.{listed-kill}
use cnc_robot_control.Tasks.TaskLaws.{Absent, entries_with, entry_of, listed}
use cnc_robot_control.Tasks.TaskList.{thread_main_begins}

-- The board when the thread of a new motor has begun with its id.
abbrev pub begun_board : ℕ → Board → Board → Board
begun_board id b b1 = record b1 { tasks = thread_main_begins b.tasks.next_node id b1.tasks }

stop-free :
    (p : ℕ) (w : World)
    → stepper_is_busy w p ≡ false
    → stepper_stop (some p) w ≡ some (false, put p (record (w.motors p) { stop = false }) w)
unfolding stepper_stop
stop-free p w e = rw e refl

here : (p : ℕ) (motor : Stepper) (w : World) → (put p motor w).motors p ≡ motor
here p motor w = ap (λ b. if b then motor else w.motors p) (==-refl p)

destroy-free :
    (meanwhile : World → World) (p : ℕ) (w : World) (b : Board)
    → stepper_is_busy w p ≡ false
    → stepper_destroy meanwhile (some p) w b
      ≡ some (
        put p (record (w.motors p) { stop = false }) w,
        release_motor (record (w.motors p) { stop = false }) b,
      )
unfolding stepper_destroy
destroy-free meanwhile p w b e = rw (stop-free p w e) (
    ap (λ m. some (put p (record (w.motors p) { stop = false }) w, release_motor m b))
      (here p (record (w.motors p) { stop = false }) w))

-- What `stepper_destroy` has left of a motor that `stepper_init` made: the task list is as it was before the
-- motor, and the thread of the motor has been cancelled.
abbrev pub Undone : ℕ → Board → Board → Type 0
Undone id b b2 =
    (b2.tasks.task_list ≡ b.tasks.task_list) × (b2.tasks.cancelled ≡ b.tasks.cancelled ++ id ∷ [])

release-Undone :
    (e : Platform) (x : MotorConfig) (motor : Stepper) (b b1 : Board) (id : ℕ)
    → Willing e
    → length x.name < 32
    → motor.name ≡ take 31 x.name
    → b1.tasks ≡ listed b.tasks (entry_of b.tasks x.name 1024 e.pulser e.object)
    → Absent x.name b.tasks.next_node b.tasks.task_list
    → 0 < id
    → entries_with id b.tasks.task_list ≡ 0
    → Undone id b (release_motor motor (begun_board id b b1))
unfolding release_motor
release-Undone e x motor b b1 id w h n t a p f =
    rw (n, take-long 31 x.name (omega arith), t)
      (listed-kill x.name 1024 e.pulser e.object id b.tasks h a p f)

-- A motor that `stepper_init` makes of a complete entry, under a name that no task has, where the driver,
-- the allocator and the threads grant what they are asked for, and whose thread has begun with a new
-- id: destroying it while it serves no request comes back at once, leaves the task list as it was
-- before the motor was made, and has cancelled its thread.
pub stepper_init-destroy :
    (e : Platform) (x : MotorConfig) (b : Board) (meanwhile : World → World) (p id : ℕ) (w : World)
    → Willing e
    → IsFormed x
    → validate_motor_node x ≡ true
    → Absent x.name b.tasks.next_node b.tasks.task_list
    → 0 < id
    → entries_with id b.tasks.task_list ≡ 0
    → (motor : Stepper) × (b1 b2 : Board) × (w' : World) × (stepper_init e
          (some x.name)
          x.step_pin
          x.dir_pin
          x.microstep
          x.steps_rot
          x.direction
          b
        ≡ some (some motor, b1))
      × (stepper_destroy meanwhile (some p) (put p motor w) (begun_board id b b1) ≡ some (w', b2))
      × Undone id b b2
stepper_init-destroy e x b meanwhile p id w g f v a live n =
    let (motor, pins, starts, is) = stepper_init-thread e x b g f v in
    let b1 = threaded e x.name (record b { gpio = pins }) in
    let made = start_thread-some e g x.name motor (record b { gpio = pins }) in
    let w0 = put p motor w in
    let same : w0.motors p ≡ motor = here p motor w in
    let stopped = record (w0.motors p) { stop = false } in
    (
      motor,
      b1,
      release_motor stopped (begun_board id b b1),
      put p stopped w0,
      starts ∙ made,
      destroy-free meanwhile p w0 (begun_board id b b1)
          (ap (λ m. is_some m.shared_mutex) same ∙ ap is_some is.8),
      release-Undone e x stopped b b1 id g f.0 (ap (λ m. m.name) same ∙ is.2) refl a live n,
    )
