-- ===== src/Tasks.antt =====
-- core/src/Tasks.c and core/include/Tasks.h: the list of tasks and the functions that change it.
pub mod TaskList
pub mod TaskLaws
pub mod KillLaws
pub mod Schedule
pub mod EntryLaws
pub mod Owners
pub mod Invariant
pub mod Changes
pub mod Safety
pub mod KillErrors
mod Tests
