-- ===== src/Pages.antt =====
-- dumpulator.py: the page managers behind `MemoryManager`.
pub mod Child
pub mod Lazy
pub mod Access
mod Examples
