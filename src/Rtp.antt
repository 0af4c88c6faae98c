-- ===== src/Rtp.antt =====
-- RTP depacketizers: H.265 (av/codec/h265parser), H.264 and AAC (av/format/rtsp).
pub mod H265
pub mod H264
pub mod Aac
pub mod Rtcp
