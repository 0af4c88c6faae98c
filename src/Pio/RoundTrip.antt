-- ===== src/Pio/RoundTrip.antt =====
-- Readers after writers.
use vrtc_sdk.Prelude.{ℕ, ◌+◌, ◌-◌, ◌*◌, ◌/◌, ◌%◌, ◌^◌, ◌<◌, ◌≤◌, ◌≡◌, ap, some, List, ◌∷◌}
use vrtc_sdk.Prelude.{ltb, if◌then◌else◌, length, arith, ◌>>=◌}
use vrtc_sdk.Prelude.Bits.{or_low}
use vrtc_sdk.Pio.{
  shift_in, sign_extend, byte_at, be32, u16_be, put_u16_be, u24_be, put_u24_be, u32_be, put_u32_be,
}
use vrtc_sdk.Pio.{u32_le, put_u32_le, u40_be, put_u40_be, u64_be, put_u64_be}
use vrtc_sdk.Pio.{i16_be, put_i16_be, i24_be, put_i24_be, i32_be, put_i32_be, i64_be, put_i64_be}

-- A shifted word has room for the next byte, whatever the width.
pub shift_in16 : (i b : ℕ) → b < 256 → shift_in 16 i b ≡ i % 2 ^ 8 * 256 + b
unfolding shift_in
shift_in16 i b h =
    let e : i * 2 ^ 8 % 2 ^ 16 ≡ i % 2 ^ 8 * 2 ^ 8 = omega arith in rw e (or_low 8 (i % 2 ^ 8) b h)

pub shift_in32 : (i b : ℕ) → b < 256 → shift_in 32 i b ≡ i % 2 ^ 24 * 256 + b
unfolding shift_in
shift_in32 i b h =
    let e : i * 2 ^ 8 % 2 ^ 32 ≡ i % 2 ^ 24 * 2 ^ 8 = omega arith in
    rw e (or_low 8 (i % 2 ^ 24) b h)

pub shift_in64 : (i b : ℕ) → b < 256 → shift_in 64 i b ≡ i % 2 ^ 56 * 256 + b
unfolding shift_in
shift_in64 i b h =
    let e : i * 2 ^ 8 % 2 ^ 64 ≡ i % 2 ^ 56 * 2 ^ 8 = omega arith in
    rw e (or_low 8 (i % 2 ^ 56) b h)

-- The value of a chain of four shifts, for any first word.
pub four32 :
    (i b c d : ℕ)
    → b < 256
    → c < 256
    → d < 256
    → shift_in 32 (shift_in 32 (shift_in 32 i b) c) d
      ≡ i % 256 * 2 ^ 24 + b * 2 ^ 16 + c * 2 ^ 8 + d
four32 i b c d hb hc hd = omega (
  arith,
  shift_in32 i b hb,
  shift_in32 (shift_in 32 i b) c hc,
  shift_in32 (shift_in 32 (shift_in 32 i b) c) d hd,
)

three32 :
    (i b c : ℕ)
    → b < 256
    → c < 256
    → shift_in 32 (shift_in 32 i b) c ≡ i % 2 ^ 16 * 2 ^ 16 + b * 2 ^ 8 + c
three32 i b c hb hc = omega (arith, shift_in32 i b hb, shift_in32 (shift_in 32 i b) c hc)

four64 :
    (i b c d : ℕ)
    → b < 256
    → c < 256
    → d < 256
    → shift_in 64 (shift_in 64 (shift_in 64 i b) c) d
      ≡ i % 2 ^ 40 * 2 ^ 24 + b * 2 ^ 16 + c * 2 ^ 8 + d
four64 i b c d hb hc hd = omega (
  arith,
  shift_in64 i b hb,
  shift_in64 (shift_in 64 i b) c hc,
  shift_in64 (shift_in 64 (shift_in 64 i b) c) d hd,
)

five64 :
    (i b c d e : ℕ)
    → b < 256
    → c < 256
    → d < 256
    → e < 256
    → shift_in 64 (shift_in 64 (shift_in 64 (shift_in 64 i b) c) d) e
      ≡ i % 2 ^ 32 * 2 ^ 32 + b * 2 ^ 24 + c * 2 ^ 16 + d * 2 ^ 8 + e
five64 i b c d e hb hc hd he = omega (
  arith,
  four64 i b c d hb hc hd,
  shift_in64 (shift_in 64 (shift_in 64 (shift_in 64 i b) c) d) e he,
)

-- Any word with the low 32 bits of `v` shifted in behind it.
low_word :
    (i v : ℕ)
    → shift_in 64
        (shift_in 64 (shift_in 64 (shift_in 64 i (byte_at 24 v)) (byte_at 16 v)) (byte_at 8 v))
        (byte_at 0 v)
      ≡ i % 2 ^ 32 * 2 ^ 32 + v % 2 ^ 32
low_word i v = omega (
  arith,
  five64 i (byte_at 24 v) (byte_at 16 v) (byte_at 8 v) (byte_at 0 v) (omega arith) (omega arith)
      (omega arith) (omega arith),
)

-- The high 32 bits of `v`, from any first word that ends in its highest byte.
high_word :
    (i v : ℕ)
    → i % 2 ^ 8 ≡ byte_at 56 v
    → shift_in 64 (shift_in 64 (shift_in 64 i (byte_at 48 v)) (byte_at 40 v)) (byte_at 32 v)
        % 2 ^ 32
      ≡ v / 2 ^ 32 % 2 ^ 32
high_word i v h = omega (
  arith,
  four64 i (byte_at 48 v) (byte_at 40 v) (byte_at 32 v) (omega arith) (omega arith) (omega arith),
)

-- What a 16-, 24-, 32- (either byte order), 40- or 64-bit writer of pio stores in a slice of at least
-- eight bytes, the unsigned reader of that width and order reads back, up to the width.
put-read_unsigned :
    (s : List ℕ) (v : ℕ)
    → 8 ≤ length s
    → ((put_u16_be s v >>= u16_be) ≡ some (v % 2 ^ 16))
      × ((put_u24_be s v >>= u24_be) ≡ some (v % 2 ^ 24))
      × ((put_u32_be s v >>= u32_be) ≡ some (v % 2 ^ 32))
      × ((put_u32_le s v >>= u32_le) ≡ some (v % 2 ^ 32))
      × ((put_u40_be s v >>= u40_be) ≡ some (v % 2 ^ 40))
      × ((put_u64_be s v >>= u64_be) ≡ some (v % 2 ^ 64))
unfolding put_u16_be u16_be put_u24_be u24_be put_u32_be u32_be put_u32_le u32_le put_u40_be u40_be
    put_u64_be u64_be
put-read_unsigned (a ∷ b ∷ c ∷ d ∷ e ∷ f ∷ g ∷ h ∷ r) v len = (
  ap some (omega (arith, shift_in16 (at 8) (at 0) (omega arith))),
  ap some (omega (arith, three32 (at 16) (at 8) (at 0) (omega arith) (omega arith))),
  ap some word,
  ap some word,
  ap some (omega (arith, low_word (at 32) v)),
  ap some (omega (arith, low_word (top (at 56)) v, high_word (at 56) v (omega arith))),
)
  where
    at : ℕ → ℕ
    at k = byte_at k v

    top : ℕ → ℕ
    top i = shift_in 64 (shift_in 64 (shift_in 64 i (at 48)) (at 40)) (at 32)

    word : shift_in 32 (shift_in 32 (shift_in 32 (at 24) (at 16)) (at 8)) (at 0) ≡ v % 2 ^ 32
    word =
        omega
          (arith, four32 (at 24) (at 16) (at 8) (at 0) (omega arith) (omega arith) (omega arith))
put-read_unsigned _ v len = absurd (omega arith)

-- The signed readers read back what the signed writers stored in a slice of at least eight bytes: a
-- 16-, 32- or 64-bit pattern whole, and of a 24-bit one the sign extension to 32 bits.
put-read_signed :
    (s : List ℕ) (v : ℕ)
    → 8 ≤ length s
    → ((put_i16_be s v >>= i16_be) ≡ some (v % 2 ^ 16))
      × ((put_i24_be s v >>= i24_be)
          ≡ some (if ltb (v % 2 ^ 24) (2 ^ 23) then v % 2 ^ 24 else v % 2 ^ 24 + 2 ^ 32 - 2 ^ 24))
      × ((put_i32_be s v >>= i32_be) ≡ some (v % 2 ^ 32))
      × ((put_i64_be s v >>= i64_be) ≡ some (v % 2 ^ 64))
unfolding put_i16_be i16_be put_i24_be i24_be put_i32_be i32_be put_i64_be i64_be
put-read_signed (a ∷ b ∷ c ∷ d ∷ e ∷ f ∷ g ∷ h ∷ r) v len = (
  ap some (omega (arith, shift_in16 (at 8) (at 0) (omega arith))),
  ap some
      (ground (arith, three32 (sign_extend 32 (at 16)) (at 8) (at 0) (omega arith) (omega arith))),
  ap some (
      ground (
        arith,
        four32 (sign_extend 32 (at 24)) (at 16) (at 8) (at 0) (omega arith) (omega arith)
            (omega arith),
      )),
  ap some (
      omega (
        arith,
        low_word (top (sign_extend 64 (at 56))) v,
        high_word (sign_extend 64 (at 56)) v (ground arith),
      )),
)
  where
    at : ℕ → ℕ
    at k = byte_at k v

    top : ℕ → ℕ
    top i = shift_in 64 (shift_in 64 (shift_in 64 i (at 48)) (at 40)) (at 32)
put-read_signed _ v len = absurd (omega arith)

-- Each writer of pio of 16 to 64 bits, with the reader of its width, sign and order, on a slice of at
-- least eight bytes: what was stored is read back, up to the width, and a 24-bit value that is read as a
-- signed one with its sign extended to 32 bits.
pub put-read :
    (s : List ℕ) (v : ℕ)
    → 8 ≤ length s
    → (((put_u16_be s v >>= u16_be) ≡ some (v % 2 ^ 16))
        × ((put_u24_be s v >>= u24_be) ≡ some (v % 2 ^ 24))
        × ((put_u32_be s v >>= u32_be) ≡ some (v % 2 ^ 32))
        × ((put_u32_le s v >>= u32_le) ≡ some (v % 2 ^ 32))
        × ((put_u40_be s v >>= u40_be) ≡ some (v % 2 ^ 40))
        × ((put_u64_be s v >>= u64_be) ≡ some (v % 2 ^ 64)))
      × ((put_i16_be s v >>= i16_be) ≡ some (v % 2 ^ 16))
      × ((put_i24_be s v >>= i24_be)
          ≡ some (if ltb (v % 2 ^ 24) (2 ^ 23) then v % 2 ^ 24 else v % 2 ^ 24 + 2 ^ 32 - 2 ^ 24))
      × ((put_i32_be s v >>= i32_be) ≡ some (v % 2 ^ 32))
      × ((put_i64_be s v >>= i64_be) ≡ some (v % 2 ^ 64))
put-read s v h =
    let signed = put-read_signed s v h in
    (put-read_unsigned s v h, signed.0, signed.1, signed.2, signed.3)

pub u32_be-be32 : (n : ℕ) (r : List ℕ) → n < 2 ^ 32 → u32_be (be32 n r) ≡ some n
unfolding u32_be
u32_be-be32 n r h = ap some (
    omega (
      arith,
      four32 (byte_at 24 n) (byte_at 16 n) (byte_at 8 n) (byte_at 0 n) (omega arith) (omega arith)
          (omega arith),
    ))
