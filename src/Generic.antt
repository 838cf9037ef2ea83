-- ===== src/Generic.antt =====
-- Comparison and hashing of any value, byterun/compare.c and hash.c.
pub mod Heap
pub mod Compare
pub mod Loop
pub mod Lexicographic
pub mod Execution
pub mod Leaves
pub mod Acyclic
pub mod Hash
pub mod Floats
pub mod Agreement
pub mod Alike
pub mod HashEqual
pub mod HashVisit
pub mod HashLoop
pub mod HashTurns
pub mod HashResult
pub mod Tests
