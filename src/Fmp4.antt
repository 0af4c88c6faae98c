-- ===== src/Fmp4.antt =====
-- av/format/fmp4: fragmented MP4.
pub mod Box
pub mod Track
pub mod Muxer
pub mod Init
pub mod Fragment
pub mod Esds
pub mod Moof
pub mod Mdat
pub mod Emsg
pub mod Sidx
pub mod Stsd
pub mod Moov
pub mod Demuxer
mod Tests
