-- ===== src/Axis.antt =====
-- core/src/Axis.c and core/include/Axis.h: axes, which move their motors together.
pub mod Double
pub mod Object
pub mod Motion
pub mod Laws
pub mod DirectionLaws
pub mod MotionLaws
pub mod MoveLaws
pub mod ReturnLaws
pub mod ThereAndBack
pub mod SpeedLaws
pub mod Samples
mod Tests
