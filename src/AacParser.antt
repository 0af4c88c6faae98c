-- ===== src/AacParser.antt =====
-- av/codec/aacparser: ADTS headers and audio configurations.
pub mod Config
pub mod Adts
mod Tests
