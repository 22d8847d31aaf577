-- ===== src/Time.antt =====
-- core/src/Time.c: arithmetic on `struct timespec` and the blocking delays. `time_t` and `long` are
-- 64-bit integers; signed overflow, which C leaves undefined, gives `none`.
pub mod Calc
pub mod Delay
pub mod Laws
pub mod Print
pub mod DigitLaws
pub mod PrintLaws
mod Tests
