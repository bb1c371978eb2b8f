-- ===== src/Handlers.antt =====
-- The instruction handlers of src/ins_*.cpp, which insert the calls of analysis functions.
pub mod Opcode
pub mod Pin
pub mod Unitary
pub mod Xchg
pub mod Core
pub mod Class
pub mod Xfer
pub mod Binary
pub mod Clear
pub mod Movsx
pub mod Form
pub mod Moves
pub mod Joins
pub mod Idiom
mod Tests
