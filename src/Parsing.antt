-- ===== src/Parsing.antt =====
-- The engine that runs the automata of ocamlyacc, byterun/parsing.c.
pub mod Engine
pub mod Recovery
pub mod Passes
pub mod Stacks
pub mod Bounds
pub mod Tests
