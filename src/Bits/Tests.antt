-- ===== src/Bits/Tests.antt =====
-- Exp-Golomb codes.
use vrtc_sdk.Prelude.{◌≡◌, refl, arith, some, [], ◌∷◌}
use vrtc_sdk.Bits.Golomb.{GolombBitReader, read_exponential_golomb_code}
use vrtc_sdk.Bits.Golomb.Code.{
  bits_of, low_bits, bits_of_bytes, golomb_code, zeros, value, read_exponential_golomb_code_lem,
}

-- 00101 011: the codes of 4 and of 2.
abbrev two_codes : GolombBitReader
two_codes = record { source = 0x2b ∷ []; buf = 0; left = 0 }

read_exponential_golomb_code_lem_example :
    (t : GolombBitReader) × (read_exponential_golomb_code two_codes ≡ some (4, t))
    × (bits_of t ≡ 0 ∷ 1 ∷ 1 ∷ [])
unfolding bits_of low_bits bits_of_bytes golomb_code zeros value
read_exponential_golomb_code_lem_example =
    read_exponential_golomb_code_lem (0 ∷ 1 ∷ []) (0 ∷ 1 ∷ 1 ∷ []) two_codes refl (omega arith)
      (omega arith)
