-- ===== src/Ipc.antt =====
-- control/src/ipc.c and control/include/ipc.h: the double buffer of axis positions.
pub mod Buffer
pub mod Sharing
pub mod Listener
pub mod ListenerLaws
pub mod UsageLaws
pub mod BufferLaws
mod Tests
