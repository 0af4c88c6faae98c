-- ===== src/Bits.antt =====
-- av/utils/bits: reading and writing of bit fields. A reader is the list of the bytes that it has left,
-- and gives as many as it is asked for while it has them; none is an error.
pub mod Golomb
pub mod Words
mod Tests
