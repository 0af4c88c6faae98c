-- ===== src/Pio.antt =====
-- av/utils/bits/pio: big-endian and little-endian integers in a byte slice.
-- A slice is the list of its bytes; `none` is the panic of an index out of range. A signed result is
-- its bit pattern, a number below 2 ^ w.
pub mod RoundTrip
pub mod Vec
mod Tests
use vrtc_sdk.Prelude.{ℕ, ◌+◌, ◌-◌, ◌*◌, ◌/◌, ◌%◌, ◌^◌, bit_or, Option, none, some, List, ◌∷◌}
use vrtc_sdk.Prelude.{ltb, if◌then◌else◌}

-- `i <<= 8; i |= b` on a word of `w` bits.
unfoldable pub shift_in : ℕ → ℕ → ℕ → ℕ
shift_in w i b = bit_or (i * 2 ^ 8 % 2 ^ w) b

-- `byte(v >> k)`.
abbrev pub byte_at : ℕ → ℕ → ℕ
byte_at k v = v / 2 ^ k % 256

-- `intW(int8(b))`, the sign extension of a byte to `w` bits.
abbrev pub sign_extend : ℕ → ℕ → ℕ
sign_extend w b = if ltb b 128 then b else b + 2 ^ w - 256

unfoldable pub u8 : List ℕ → Option ℕ
u8 (a ∷ r) = some a
u8 _ = none

unfoldable pub u16_be : List ℕ → Option ℕ
u16_be (a ∷ b ∷ r) = some (shift_in 16 a b)
u16_be _ = none

unfoldable pub i16_be : List ℕ → Option ℕ
i16_be (a ∷ b ∷ r) = some (shift_in 16 a b)
i16_be _ = none

unfoldable pub i24_be : List ℕ → Option ℕ
i24_be (a ∷ b ∷ c ∷ r) = some (shift_in 32 (shift_in 32 (sign_extend 32 a) b) c)
i24_be _ = none

unfoldable pub u24_be : List ℕ → Option ℕ
u24_be (a ∷ b ∷ c ∷ r) = some (shift_in 32 (shift_in 32 a b) c)
u24_be _ = none

unfoldable pub i32_be : List ℕ → Option ℕ
i32_be (a ∷ b ∷ c ∷ d ∷ r) = some (shift_in 32 (shift_in 32 (shift_in 32 (sign_extend 32 a) b) c) d)
i32_be _ = none

unfoldable pub u32_le : List ℕ → Option ℕ
u32_le (a ∷ b ∷ c ∷ d ∷ r) = some (shift_in 32 (shift_in 32 (shift_in 32 d c) b) a)
u32_le _ = none

unfoldable pub u32_be : List ℕ → Option ℕ
u32_be (a ∷ b ∷ c ∷ d ∷ r) = some (shift_in 32 (shift_in 32 (shift_in 32 a b) c) d)
u32_be _ = none

unfoldable pub u40_be : List ℕ → Option ℕ
u40_be (a ∷ b ∷ c ∷ d ∷ e ∷ r) =
    some (shift_in 64 (shift_in 64 (shift_in 64 (shift_in 64 a b) c) d) e)
u40_be _ = none

-- The eight shifts of `U64BE` and `I64BE` from a first word.
abbrev eight : ℕ → ℕ → ℕ → ℕ → ℕ → ℕ → ℕ → ℕ → ℕ
eight i b c d e f g h =
    let four = shift_in 64 (shift_in 64 (shift_in 64 i b) c) d in
    shift_in 64 (shift_in 64 (shift_in 64 (shift_in 64 four e) f) g) h

unfoldable pub u64_be : List ℕ → Option ℕ
u64_be (a ∷ b ∷ c ∷ d ∷ e ∷ f ∷ g ∷ h ∷ r) = some (eight a b c d e f g h)
u64_be _ = none

unfoldable pub i64_be : List ℕ → Option ℕ
i64_be (a ∷ b ∷ c ∷ d ∷ e ∷ f ∷ g ∷ h ∷ r) = some (eight (sign_extend 64 a) b c d e f g h)
i64_be _ = none

unfoldable pub put_u8 : List ℕ → ℕ → Option (List ℕ)
put_u8 (_ ∷ r) v = some (v ∷ r)
put_u8 _ v = none

unfoldable pub put_i16_be : List ℕ → ℕ → Option (List ℕ)
put_i16_be (_ ∷ _ ∷ r) v = some (byte_at 8 v ∷ byte_at 0 v ∷ r)
put_i16_be _ v = none

unfoldable pub put_u16_be : List ℕ → ℕ → Option (List ℕ)
put_u16_be (_ ∷ _ ∷ r) v = some (byte_at 8 v ∷ byte_at 0 v ∷ r)
put_u16_be _ v = none

unfoldable pub put_i24_be : List ℕ → ℕ → Option (List ℕ)
put_i24_be (_ ∷ _ ∷ _ ∷ r) v = some (byte_at 16 v ∷ byte_at 8 v ∷ byte_at 0 v ∷ r)
put_i24_be _ v = none

unfoldable pub put_u24_be : List ℕ → ℕ → Option (List ℕ)
put_u24_be (_ ∷ _ ∷ _ ∷ r) v = some (byte_at 16 v ∷ byte_at 8 v ∷ byte_at 0 v ∷ r)
put_u24_be _ v = none

-- The bytes that `PutU32BE` writes.
abbrev pub be32 : ℕ → List ℕ → List ℕ
be32 v r = byte_at 24 v ∷ byte_at 16 v ∷ byte_at 8 v ∷ byte_at 0 v ∷ r

unfoldable pub put_i32_be : List ℕ → ℕ → Option (List ℕ)
put_i32_be (_ ∷ _ ∷ _ ∷ _ ∷ r) v = some (be32 v r)
put_i32_be _ v = none

unfoldable pub put_u32_be : List ℕ → ℕ → Option (List ℕ)
put_u32_be (_ ∷ _ ∷ _ ∷ _ ∷ r) v = some (be32 v r)
put_u32_be _ v = none

unfoldable pub put_u32_le : List ℕ → ℕ → Option (List ℕ)
put_u32_le (_ ∷ _ ∷ _ ∷ _ ∷ r) v =
    some (byte_at 0 v ∷ byte_at 8 v ∷ byte_at 16 v ∷ byte_at 24 v ∷ r)
put_u32_le _ v = none

unfoldable pub put_u40_be : List ℕ → ℕ → Option (List ℕ)
put_u40_be (_ ∷ _ ∷ _ ∷ _ ∷ _ ∷ r) v = some (byte_at 32 v ∷ be32 v r)
put_u40_be _ v = none

unfoldable pub put_u48_be : List ℕ → ℕ → Option (List ℕ)
put_u48_be (_ ∷ _ ∷ _ ∷ _ ∷ _ ∷ _ ∷ r) v = some (byte_at 40 v ∷ byte_at 32 v ∷ be32 v r)
put_u48_be _ v = none

-- The bytes that `PutU64BE` writes.
abbrev be64 : ℕ → List ℕ → List ℕ
be64 v r = byte_at 56 v ∷ byte_at 48 v ∷ byte_at 40 v ∷ byte_at 32 v ∷ be32 v r

unfoldable pub put_u64_be : List ℕ → ℕ → Option (List ℕ)
put_u64_be (_ ∷ _ ∷ _ ∷ _ ∷ _ ∷ _ ∷ _ ∷ _ ∷ r) v = some (be64 v r)
put_u64_be _ v = none

unfoldable pub put_i64_be : List ℕ → ℕ → Option (List ℕ)
put_i64_be (_ ∷ _ ∷ _ ∷ _ ∷ _ ∷ _ ∷ _ ∷ _ ∷ r) v = some (be64 v r)
put_i64_be _ v = none
