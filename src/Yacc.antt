-- ===== src/Yacc.antt =====
-- The parser generator ocamlyacc, the folder yacc.
pub mod Nullable
pub mod Derivation
pub mod Passes
pub mod Warshall
pub mod Closure
pub mod Paths
pub mod Reflexive
pub mod Tests
