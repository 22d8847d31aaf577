-- ===== src/Control.antt =====
-- control/src/control.c: the control program.
pub mod Message
pub mod ReadLaws
pub mod ReadErrors
pub mod Program
pub mod Loop
pub mod DecodeLaws
pub mod LoopLaws
pub mod CommandLaws
pub mod ParamLaws
pub mod EndLaws
pub mod HaltLaws
pub mod Start
pub mod StartLaws
pub mod MainLaws
mod Tests
