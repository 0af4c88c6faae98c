-- ===== src/Pva.antt =====
-- av/pva: analytics that are stored, broadcast, and attached to packets.
pub mod Store
pub mod Merge
