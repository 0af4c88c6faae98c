-- ===== src/H265Parser.antt =====
-- av/codec/h265parser: sequence parameter sets.
pub mod Sps
pub mod Vui
