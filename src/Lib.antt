-- ===== src/Lib.antt =====
-- PyVM, an emulator of 32-bit x86 programs in Python (VM/): a model of its processor with the
-- floating-point unit, its memory, its system calls and its ELF loader, and theorems on them.
--
-- Parts and files. The state is the record of Machine: the registers and flags (VM/Registers.py;
-- Registers, and Segments for descriptors and segment registers), the RAM (VM/Memory.py; Memory), both
-- buffers of bytes (Bytes), the floating-point unit (Fpu), the fields of VM/CPU.py `CPU32`, the GDT, the
-- file descriptors and the return code of VM/__init__.py `VM`, and the free blocks of
-- VM/kernel/kernel.py `Kernel`. A method of Python is an action that passes this state on and returns
-- or raises; an exception keeps the changes made before it (Machine, Outcome).
--   * Misc: VM/misc.py and VM/util.py, conversions and parity. ModRm: `process_ModRM`, the operands.
--   * Stack: VM/CPU.py, `stack_push` and `stack_pop`.
--   * Binary80: VM/FPU.py `Binary80`, the extended numbers and their arithmetic. Fpu: `FPU`, its stack
--     of eight registers and its control and status words. Memory.Floats: the accesses of VM/Memory.py
--     to floating-point numbers.
--   * Instructions: VM/instructions, a handler for each method, under its name. AddSub, IncDec, MulDiv:
--     math.py. Condition, Jump, Call, Control, Trap: control.py. Move, Transfer: memory.py and `STOS`. Bitwise,
--     Shift: bitwise.py. Floating: floating.py, and Floating.Table for the opcodes 0xD8 to 0xDF. A
--     handler returns False where it declines the opcode, as in the source.
--   * Dispatch: the opcode table that VM/util.py collects from the classes, and `REP`. FetchLoop:
--     VM/fetchLoop.py, `execute_opcode`, the prefixes and the loop of `run`, which calls the
--     handlers of the table; `int 0x80` calls the table of Kernel.
--   * Kernel: VM/kernel. Blocks, Brk, Mmap, ThreadArea: kernel_memory.py. Ask, Files, Streams:
--     kernel_filesystem.py. Process: kernel_sys.py. Table: `Kernel.__getitem__`. What they ask of
--     Python (files, clock, console) is the record Host: answers that depend on the calls so far, which
--     the state keeps in order.
--   * Elf: VM/ELF, the headers and their checks; Elf.Analyze: ELF/analyze.py, which keeps the sections and
--     symbols that it read and builds an image of the segments. Loader: `ExecuteELF` of
--     VM/fetchLoop.py, the segments and the first stack. Main: the machine that VM/__init__.py builds,
--     with the whole table of opcodes and of system calls; the flat binaries of `ExecuteBytes` and
--     `ExecuteFlat`.
--   * Safety: every action of the processor, its instructions and its system calls, on one question:
--     which bytes it may change. A child for each part of the program, up to `run`.
--   * Prelude: shared names, Python's integers, lists and tests. Examples: tests and concrete instances.
-- A module under another one holds the theorems on it.
--
-- Conventions. Python's unbounded integers are a type of their own (ℤ), numbers that are never
-- negative are native ones, and `x & MAXVALS[sz]` is written as a remainder. Sizes are 1, 2 and 4, and 8
-- and 10 for floating-point operands. Assertions are on. Exceptions are known by their types, without
-- messages; log messages are left out, except where making one raises. Implementations of an opcode are kept in a set by the source; the
-- table lists them in one order, and the theorems of Dispatch.Groups and Instructions.Floating.Groups
-- hold for every order.
--
-- Bounds and fuel. The loop of the prefixes has a byte of fuel more than the memory has bytes, which
-- read_prefixes_enough shows to be enough; the bit scan has fuel for each bit; the fusing of free
-- blocks has two rounds, which fuse_blocks_lem accounts for; the normalization of a product or a
-- quotient has a round for each bit, and normalize_lem shows that they suffice. The loop of `run` takes
-- its fuel as an argument and says whether it ran out. `execute_opcode` takes the depth that Python
-- allows for nested calls, which REP makes.
--
-- Not modelled. Python's own code is a parameter: the conversions between its floats, integers and
-- extended numbers (Floats), its files, clock and console (Host), and which numbers `enum.Flag` and
-- the enumerations of VM/ELF accept (a Boolean argument). Left out are the printed
-- forms of parsed ELF structures and the conversions of section and symbol fields to enumerations,
-- which nothing reads, the command line, the debugging output, the metaclasses' handling of method names,
-- and 16-bit addressing, which the source does not have. A machine whose run ended in an exception is
-- not run again.
pub mod Prelude
pub mod Bytes
pub mod Outcome
pub mod Misc
pub mod Registers
pub mod Memory
pub mod Segments
pub mod Binary80
pub mod Fpu
pub mod Host
pub mod Machine
pub mod Safety
pub mod Stack
pub mod ModRm
pub mod Instructions
pub mod Dispatch
pub mod FetchLoop
pub mod Kernel
pub mod Elf
pub mod Loader
pub mod Main
pub mod Examples
