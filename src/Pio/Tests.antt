-- ===== src/Pio/Tests.antt =====
-- The round trips of pio at concrete slices.
use vrtc_sdk.Prelude.{ℕ, ◌≡◌, ◌>>=◌, some, List, [], ◌∷◌, arith}
use vrtc_sdk.Pio.{u16_be, put_u16_be, u24_be, put_u24_be, u32_be, put_u32_be}
use vrtc_sdk.Pio.{u32_le, put_u32_le, u40_be, put_u40_be, u64_be, put_u64_be}
use vrtc_sdk.Pio.{i16_be, put_i16_be, i24_be, put_i24_be, i32_be, put_i32_be, i64_be, put_i64_be}
use vrtc_sdk.Pio.RoundTrip.{put-read}

abbrev nine_bytes : List ℕ
nine_bytes = 1 ∷ 2 ∷ 3 ∷ 4 ∷ 5 ∷ 6 ∷ 7 ∷ 8 ∷ 9 ∷ []

abbrev word : ℕ
word = 0x8123456789abcdef

put-read_example :
    (((put_u16_be nine_bytes word >>= u16_be) ≡ some 0xcdef)
      × ((put_u24_be nine_bytes word >>= u24_be) ≡ some 0xabcdef)
      × ((put_u32_be nine_bytes word >>= u32_be) ≡ some 0x89abcdef)
      × ((put_u32_le nine_bytes word >>= u32_le) ≡ some 0x89abcdef)
      × ((put_u40_be nine_bytes word >>= u40_be) ≡ some 0x6789abcdef)
      × ((put_u64_be nine_bytes word >>= u64_be) ≡ some word))
    × ((put_i16_be nine_bytes word >>= i16_be) ≡ some 0xcdef)
    × ((put_i24_be nine_bytes word >>= i24_be) ≡ some 0xffabcdef)
    × ((put_i32_be nine_bytes word >>= i32_be) ≡ some 0x89abcdef)
    × ((put_i64_be nine_bytes word >>= i64_be) ≡ some word)
put-read_example = put-read nine_bytes word (omega arith)
