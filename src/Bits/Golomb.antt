-- ===== src/Bits/Golomb.antt =====
-- av/utils/bits/golomb_reader.go.
pub mod Code
use vrtc_sdk.Prelude.{
  ℕ, zero, suc, ◌+◌, ◌-◌, ◌*◌, ◌/◌, ◌%◌, ◌^◌, Bool, true, false, not, ◌||◌, Option, none, some,
  ◌>>=◌, List, [], ◌∷◌, ◌++◌, ltb, ◌==◌, if◌then◌else◌,
}

-- `GolombBitReader`.
pub record GolombBitReader : Type 0 where
  pub source : List ℕ
  pub buf : ℕ
  pub left : ℕ

-- `ReadBit`.
unfoldable pub read_bit : GolombBitReader → Option (ℕ × GolombBitReader)
read_bit s = elim s.left [
  | zero ↦ elim s.source [
    | [] ↦ none
    | b ∷ r ↦ some (b / 2 ^ 7 % 2, record { source = r; buf = b; left = 7 })
  ]
  | suc left ↦ some (s.buf / 2 ^ left % 2, record s { left = left })
]

-- `ReadBits`; a shift by 64 or more gives 0.
unfoldable pub read_bits : ℕ → GolombBitReader → Option (ℕ × GolombBitReader)
unfolding read_bit
read_bits zero s = some (0, s)
read_bits (suc n) s = do
  bit ← read_bit s
  rest ← read_bits n bit.1
  some (bit.0 * 2 ^ n % 2 ^ 64 + rest.0, rest.1)

-- The loops of `ReadBits32` and `ReadBits64`, with the bits so far.
unfoldable pub read_word : ℕ → ℕ → ℕ → GolombBitReader → Option (ℕ × GolombBitReader)
unfolding read_bit
read_word width zero r s = some (r, s)
read_word width (suc n) r s =
    read_bit s >>= λ bit. read_word width n ((r * 2 + bit.0) % 2 ^ width) bit.1

unfoldable pub read_bits32 : ℕ → GolombBitReader → Option (ℕ × GolombBitReader)
unfolding read_word
read_bits32 n s = read_word 32 n 0 s

unfoldable pub read_bits64 : ℕ → GolombBitReader → Option (ℕ × GolombBitReader)
unfolding read_word
read_bits64 n s = read_word 64 n 0 s

-- The loop of `ReadExponentialGolombCode`, which counts zeros up to 32.
unfoldable pub count_zeros : ℕ → ℕ → GolombBitReader → Option (ℕ × GolombBitReader)
unfolding read_bit
count_zeros zero i s = none
count_zeros (suc fuel) i s = do
  bit ← read_bit s
  let later = count_zeros fuel (i + 1) bit.1
  if not (bit.0 == 0) || ltb 31 i then some (i, bit.1) else later

unfoldable pub read_exponential_golomb_code : GolombBitReader → Option (ℕ × GolombBitReader)
unfolding count_zeros read_bits
read_exponential_golomb_code s = do
  i ← count_zeros 33 0 s
  rest ← read_bits i.0 i.1
  some (rest.0 + (2 ^ i.0 - 1), rest.1)

-- `ReadSE`, whose negative values are those of a uint.
unfoldable pub read_se : GolombBitReader → Option (ℕ × GolombBitReader)
unfolding read_exponential_golomb_code
read_se s = do
  res ← read_exponential_golomb_code s
  some (if res.0 % 2 == 1 then (res.0 + 1) / 2 else (2 ^ 64 - res.0 / 2) % 2 ^ 64, res.1)
