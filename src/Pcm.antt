-- ===== src/Pcm.antt =====
-- av/codec/pcm: G.711, and the FLAC codec data. A sample of 16 bits is its two's complement pattern, below
-- 65536.
pub mod Ulaw
pub mod Alaw
pub mod Flac
pub mod RoundTrip
mod Tests
