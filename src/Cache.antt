-- ===== src/Cache.antt =====
-- A cache's lines and where they are kept.
pub mod Line
pub mod Array
pub mod Registers
pub mod Accesses
pub mod Geometry
pub mod Loops
pub mod Found
pub mod Spill
mod Tests
