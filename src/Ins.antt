-- ===== src/Ins.antt =====
-- The instruction handlers of src/ins_*.cpp: the analysis functions that move tags.
pub mod Width
pub mod Xfer
pub mod Clear
pub mod Binary
pub mod Stos
pub mod Movbe
pub mod Movsx
pub mod Xchg
pub mod Lea
pub mod Unitary
pub mod Core
pub mod Reg
