-- ===== src/Kernel.antt =====
-- VM/kernel: the system calls and their table.
pub mod Blocks
pub mod Brk
pub mod Mmap
pub mod ThreadArea
pub mod Ask
pub mod Files
pub mod Streams
pub mod Process
pub mod Table
