-- ===== src/Gpio.antt =====
-- core/src/GPIO.c and core/include/GPIO.h: the pins of the J21 header.
pub mod Pins
pub mod PinLaws
pub mod Lines
pub mod LineLaws
mod Tests
