-- ===== src/Channel.antt =====
-- Buffered channels, byterun/io.c.
pub mod Output
pub mod Written
pub mod Flushed
pub mod Input
pub mod Block
pub mod Read
pub mod Seek
pub mod Line
pub mod Scan
pub mod Scanned
pub mod Tests
