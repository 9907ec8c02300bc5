-- ===== src/Handles.antt =====
-- handles.py: the handles of the process and the objects behind them.
pub mod Manager
pub mod Mapped
pub mod Fresh
pub mod Giving
pub mod History
pub mod Table
pub mod File
pub mod Reading
mod Examples
