-- ===== src/Registers.antt =====
-- details.py: registers and arguments; dumpulator.py: the stack
pub mod Names
pub mod Access
pub mod Flags
pub mod Saving
pub mod Stack
pub mod Calling
pub mod Passing
pub mod Samples
mod Examples
