-- ===== src/Protocol.antt =====
-- The coherence protocols and the tables that drive them.
pub mod Table
pub mod Actions
pub mod Msi
pub mod Cells
pub mod Ready
pub mod Llc
pub mod Mesi
pub mod Owner
pub mod Predictable
mod Tests
