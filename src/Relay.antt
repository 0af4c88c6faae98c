-- ===== src/Relay.antt =====
-- av/relayhub: relays that fan the packets of one demuxer out to consumers.
pub mod Consumer
pub mod Muxing
pub mod Registry
