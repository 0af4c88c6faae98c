-- ===== src/H264Parser.antt =====
-- av/codec/h264parser: parameter sets, the decoder configuration record and slice headers.
pub mod Sps
pub mod Record
pub mod Nalu
mod Tests
