-- ===== src/Syscalls.antt =====
-- ntsyscalls.py
pub mod Process
pub mod Virtual
pub mod Keeping
pub mod Valid
pub mod Freeing
pub mod Kernel
pub mod Files
pub mod Transfers
mod Examples
mod FileExamples
