-- ===== src/Segment.antt =====
-- av/segment: the ring buffer of fMP4 fragments, and the muxer that records and fills it.
pub mod RingBuffer
pub mod Muxer
