-- ===== src/Native.antt =====
-- native.py: register contexts and the rounding of sizes.
pub mod Text
pub mod Rounding
pub mod Context
pub mod Restoring
pub mod Wow64
pub mod Wow64Restoring
pub mod Structs
mod Examples
