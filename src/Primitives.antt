-- ===== src/Primitives.antt =====
-- ntprimitives.py and the binary data of device controls in handles.py.
pub mod Integers
pub mod Wrapping
pub mod Control
pub mod Fields
mod Examples
pub mod Architecture
