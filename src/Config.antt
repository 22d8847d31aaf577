-- ===== src/Config.antt =====
-- control/src/config.c: the state machine that reads the motor configuration file.
pub mod Chars
pub mod Types
pub mod Lookup
pub mod Scan
pub mod Setters
pub mod MotorList
pub mod ScanLaws
pub mod Setting
pub mod Progress
pub mod Termination
pub mod Invariant
pub mod Outcome
pub mod Pointing
pub mod Room
pub mod Safety
pub mod Bound
pub mod Lines
pub mod Entries
pub mod Formed
pub mod Machine
pub mod Creation
pub mod Init
pub mod InitLaws
pub mod Making
pub mod AxisMaking
pub mod Destruction
pub mod Samples
mod Tests
mod CreationTests
