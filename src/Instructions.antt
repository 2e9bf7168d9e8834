-- ===== src/Instructions.antt =====
-- VM/instructions: one module for each class of instructions. A handler returns whether it took the
-- opcode, as in the source; the debug messages are left out, except where one raises.
pub mod AddSub
pub mod IncDec
pub mod MulDiv
pub mod Condition
pub mod Compare
pub mod Jump
pub mod Call
pub mod Control
pub mod Move
pub mod Transfer
pub mod Bitwise
pub mod Shift
pub mod Trap
pub mod Floating
