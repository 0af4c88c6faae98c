-- ===== src/H265Parser/Vui.antt =====
-- av/codec/h265parser/sps.go: `parseVUI`, which goes on when a read fails. A failed read gives 0 and
-- leaves a reader that has no bits; `ReadBits32` gives the bits that there were.
use vrtc_sdk.Prelude.{
  ℕ, zero, suc, ◌+◌, ◌*◌, ◌/◌, ◌%◌, ◌^◌, Option, none, some, [], ◌==◌, if◌then◌else◌,
}
use vrtc_sdk.Bits.Golomb.{GolombBitReader, read_bit, read_bits, read_exponential_golomb_code}

abbrev pub empty_reader : GolombBitReader
empty_reader = record { source = []; buf = 0; left = 0 }

-- A read whose error is not looked at.
unfoldable pub lenient :
    (GolombBitReader → Option (ℕ × GolombBitReader)) → GolombBitReader → ℕ × GolombBitReader
lenient f r = elim (f r) [ none ↦ (0, empty_reader) | some v ↦ v ]

unfoldable pub lenient_times :
    (GolombBitReader → Option (ℕ × GolombBitReader)) → ℕ → GolombBitReader → GolombBitReader
unfolding lenient
lenient_times f zero r = r
lenient_times f (suc n) r = lenient_times f n (lenient f r).1

-- `ReadBits32` with its error dropped.
unfoldable pub lenient_word : ℕ → ℕ → GolombBitReader → ℕ × GolombBitReader
unfolding read_bit
lenient_word zero v r = (v, r)
lenient_word (suc n) v r = elim (read_bit r) [
  | none ↦ (v, empty_reader)
  | some (bit, s) ↦ lenient_word n ((v * 2 + bit) % 2 ^ 32) s
]

-- A part that a flag announces.
unfoldable pub lenient_part :
    (GolombBitReader → GolombBitReader) → GolombBitReader → GolombBitReader
unfolding lenient read_bit
lenient_part f r =
    let flag = lenient read_bit r in let after = f flag.1 in if flag.0 == 0 then flag.1 else after

unfoldable pub sample_aspect : GolombBitReader → GolombBitReader
unfolding lenient lenient_times read_bits
sample_aspect r =
    let idc = lenient (read_bits 8) r in
    if idc.0 == 255 then lenient_times (read_bits 16) 2 idc.1 else idc.1

unfoldable pub signal_type : GolombBitReader → GolombBitReader
unfolding lenient lenient_times lenient_part read_bit read_bits
signal_type r =
    lenient_part (lenient_times (read_bits 8) 3) (lenient read_bit (lenient (read_bits 3) r).1).1

-- The parts before the timing.
unfoldable pub before_timing : GolombBitReader → GolombBitReader
unfolding lenient_times lenient_part sample_aspect signal_type read_bit read_exponential_golomb_code
before_timing r = lenient_part (lenient_times read_exponential_golomb_code 4) (
    lenient_times read_bit 3 (
      lenient_part (lenient_times read_exponential_golomb_code 2) (
        lenient_part signal_type
          (lenient_part (lenient_times read_bit 1) (lenient_part sample_aspect r)))))

-- `timeScale / (2 * numUnitsInTick)` on uint32; none is the panic of a division by zero.
unfoldable pub frames_per_second : ℕ → ℕ → Option ℕ
frames_per_second units scale =
    if units == 0
    then some 0
    else if units * 2 % 2 ^ 32 == 0
    then none
    else some (scale / (units * 2 % 2 ^ 32))

-- `parseVUI`: the FPS, or a panic.
unfoldable pub parse_vui : GolombBitReader → Option ℕ
unfolding before_timing lenient lenient_word frames_per_second read_bit
parse_vui r =
    let flag = lenient read_bit (before_timing r) in
    let units = lenient_word 32 0 flag.1 in
    let scale = lenient_word 32 0 units.1 in
    if flag.0 == 0 then some 0 else frames_per_second units.0 scale.0
