-- ===== src/Stepper.antt =====
-- core/src/Stepper.c and core/include/Stepper.h: the stepper motors.
pub mod Values
pub mod World
pub mod Direction
pub mod Speed
pub mod Request
pub mod Pulser
pub mod SpeedLaws
pub mod CountLaws
pub mod PulseLaws
pub mod StepLaws
pub mod TakenLaws
pub mod MoveLaws
pub mod Control
pub mod ControlLaws
pub mod StopLaws
pub mod Sharing
pub mod SharedLaws
pub mod StopRely
pub mod StopErrors
pub mod HandlerLaws
pub mod Samples
mod Tests
pub mod Lifecycle
pub mod Destroy
