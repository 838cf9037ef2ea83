-- ===== src/Lexing.antt =====
-- The engines that run the automata of ocamllex, byterun/lexing.c.
pub mod Engine
pub mod Memory
pub mod Turns
pub mod Refill
pub mod Positions
pub mod Forget
pub mod Tests
