-- ===== src/Lib.antt =====
-- The control software of a CNC robot: stepper motors on GPIO lines, grouped to axes, and the control
-- program that reads their configuration and moves them.
--
-- The parts, and the modules that model them:
--   * core/src/Time.c (`add_time`, `sub_time`, `mul_time`, `div_time`, `microsec_to_timespec`, the
--     `Delay` functions): Time.Calc and Time.Delay, with laws in Time.Laws;
--     `print_time`, `snprint_time` and `time_to_double`: Time.Print, with laws in DigitLaws and
--     PrintLaws. `time_t` and `long` are integers of 64 bits, and signed overflow, which is undefined in C, gives `none`.
--   * core/src/GPIO.c and core/include/GPIO.h (`int_to_gpio_pin`, the constants and macros of pins):
--     Gpio.Pins, with laws in Gpio.PinLaws. `gpio_init_controller`, `GPIO_init_pin` and
--     `GPIO_init_bulk`: Gpio.Lines, with laws in Gpio.LineLaws. libgpiod and the allocator are the
--     parameter `Gpiod`, whose answers may depend on all calls before.
--   * core/src/Stepper.c: Stepper.Values, Stepper.World (the objects), Stepper.Direction,
--     Stepper.Speed, Stepper.Request (`stepper_create_new_request`, `stepper_destroy_request`,
--     `stepper_step_multiple`), Stepper.Pulser (`motor_pulser`) and Stepper.Control (`stepper_stop`,
--     `stepper_wait`, `stepper_ready`, `stepper_get_steps`), Stepper.Lifecycle
--     (`stepper_init`) and Stepper.Destroy (`stepper_destroy`). A `World` holds the motors and requests,
--     a pointer is a number, NULL is `none`; every call of libgpiod, of clock_nanosleep and of a
--     condition variable is logged in the order made. What the driver and the allocator answer is the
--     parameter `Env`; what other threads do between two rounds of a loop is the parameter `Others`.
--     The laws are in SpeedLaws, CountLaws, PulseLaws, StepLaws, TakenLaws, MoveLaws, StopLaws,
--     StopErrors and ControlLaws. Sharing says what other threads may do to a request that is served, with
--     laws in SharedLaws, StopRely (calls of `stepper_stop`) and HandlerLaws.
--   * control/src/config.c: Config.Types (data), Config.Chars (strings), Config.Lookup, Config.Scan
--     (`state_read_line`, `state_read_param`, `state_read_identifier`, `state_read_value`),
--     Config.Setters (`state_set_identifier`, `state_check_param`, `state_set_param`),
--     Config.MotorList (`state_read_motor_list`) and Config.Machine (`motor_config_state_machine`).
--     `getline` is a list of lines; a line carries the bytes that its buffer holds behind the
--     terminator. An index outside an array ends a run: `none` of a round, `faulted` of the machine.
--     The laws are in ScanLaws, Setting, Progress, Termination, Invariant, Outcome, Room, Safety,
--     Lines, Entries and Formed; Bound tells from the lines of a file whether the arrays have room for it,
--     with the laws below it; Creation joins the entries to `stepper_init`. `init_motors`,
--     `read_motor_config` and the look-ups are in Config.Init, with laws in InitLaws, Making and
--     AxisMaking; Pointing is about the motors that an axis names, and below it are the loops that
--     read through them and `read_motor_config` on a whole file. Destruction joins
--     `stepper_init` and `stepper_destroy`.
--   * core/src/Tasks.c (`CreateTask`, `Task_get_id_by_name`, `Task_kill`, the list): Tasks.TaskList,
--     with laws in Tasks.TaskLaws and Tasks.KillLaws; a node of the list for which there is no memory
--     is written through NULL: `none`. Tasks.Schedule is `thread_main`, statement by
--     statement, and a step relation of such threads beside calls of `CreateTask` and `Task_kill`, with
--     laws in EntryLaws, Owners, Invariant, Changes, Safety and KillErrors.
--   * control/src/ipc.c and control/include/ipc.h (`pos_buffer_push`, `pos_buffer_pop`,
--     `init_pos_buffer`): Ipc.Buffer, statement by statement; Ipc.Sharing is a step relation of a
--     writer and a reader, with laws in Ipc.BufferLaws. A position is of any type.
--     The listener socket (`init_listener`, `wait_connection`, `close_listener`): Ipc.Listener, with
--     laws in Ipc.ListenerLaws and Ipc.UsageLaws; the calls of the system are logged, and its answers are the parameter
--     `Sockets`.
--   * core/src/Axis.c and core/include/Axis.h: Axis.Object (the object, `axis_init`, the conversions
--     between millimetres and steps) and Axis.Motion (all other functions). The type `double` and its
--     operations are the parameter `Double`. The laws are in Laws, DirectionLaws, SpeedLaws, MotionLaws,
--     MoveLaws, ReturnLaws and ThereAndBack.
--   * control/src/control.c: Control.Message (`read_message`), Control.Program (`decode_message`,
--     `cmd_move`, `cmd_getpos`) and Control.Loop (the loop of `main`, `sigint_handler`, `cleanup`). What
--     `read` and `select` give is a list of events; the bytes of numbers, the signedness of `char`, the
--     clock and what the motor threads do while a call waits are the parameter `Platform`. Control.Start
--     is `init_system`, `start_py_process` and `main`, with laws in StartLaws and MainLaws. The other
--     laws are in ReadLaws, ReadErrors, DecodeLaws, LoopLaws, CommandLaws, ParamLaws, EndLaws
--     and HaltLaws.
-- The state machine writes entries from which `init_motors` makes motors by `stepper_init`; the
-- pins it accepts come from `int_to_gpio_pin`, and the pulses of the motors sleep for a time made by
-- `microsec_to_timespec`.
--
-- Fuel: the state machine has six rounds for a line and four more, and its loop is shown to end within
-- them. The loop of `motor_pulser` has any fuel, and its laws ask for one round for each step. The
-- loops of `read_message` and `main` run over the reads and the calls of `select` that come back.
--
-- A message on a socket is put together by `read_message`, `decode_message` passes a move to the axis,
-- the axis turns and starts its motors, and the thread of the first motor pulses them.
--
-- Not modelled: the child of `fork` in `start_py_process` (it becomes another program),
-- an interrupt by Ctrl-C at another time than in `select`, the values of `double`, messages for
-- debugging, and calls that change `task_list` while another changes it (the source has no lock).
pub mod Common
pub mod Time
pub mod Gpio
pub mod Stepper
pub mod Axis
pub mod Tasks
pub mod Config
pub mod Ipc
pub mod Control
