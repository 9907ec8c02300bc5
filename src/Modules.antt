-- ===== src/Modules.antt =====
-- modules.py
pub mod Export
pub mod Manager
pub mod Resolving
pub mod Exported
mod Examples
