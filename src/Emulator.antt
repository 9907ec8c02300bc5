-- ===== src/Emulator.antt =====
-- dumpulator.py: the memory that `Dumpulator` allocates for its user, its hooks, and the loop of `start`
pub mod Allocate
pub mod Allocated
pub mod Chances
pub mod Delivering
pub mod Dispatch
pub mod Exceptions
pub mod Frame
pub mod Hooks
pub mod Inside
pub mod Looping
pub mod Ready
pub mod Reporting
pub mod Restart
pub mod Run
pub mod Syscall
pub mod Terminate
mod Examples
mod RunExamples
