-- ===== src/Interp.antt =====
-- The bytecode interpreter, byterun/interp.c.
pub mod Machine
pub mod Word
pub mod Opcode
pub mod Stack
pub mod Control
pub mod Apply
pub mod Closure
pub mod Block
pub mod Branch
pub mod Arith
pub mod Object
pub mod Primitive
pub mod Step
pub mod Facts
pub mod Calls
pub mod Partial
pub mod Handlers
pub mod Overflow
pub mod Fusion
pub mod Tagging
pub mod Division
pub mod Integers
pub mod MethodSearch
pub mod MethodCache
pub mod Memory
pub mod Tests
