-- ===== src/Bits/Golomb/Code.antt =====
-- The bit reader on the sequence of its bits, and Exp-Golomb codes.
use vrtc_sdk.Prelude.{
  ltb, ℕ, zero, suc, ◌+◌, ◌-◌, ◌*◌, ◌/◌, ◌%◌, ◌^◌, ◌≤◌, ◌<◌, ◌≡◌, refl, false, none, some, List, [],
  ◌∷◌, ◌++◌, arith, All, length,
}
use vrtc_sdk.Bits.Golomb.{
  GolombBitReader, read_bit, read_bits, count_zeros, read_exponential_golomb_code,
}
use mathlib.Core.Path.{subst}
use native.Mathlib.Nat.{pow-le-pow_right}

-- The low `n` bits of a number, the highest first.
unfoldable pub low_bits : ℕ → ℕ → List ℕ
low_bits zero b = []
low_bits (suc n) b = b / 2 ^ n % 2 ∷ low_bits n b

unfoldable pub bits_of_bytes : List ℕ → List ℕ
unfolding low_bits
bits_of_bytes [] = []
bits_of_bytes (b ∷ r) = low_bits 8 b ++ bits_of_bytes r

-- The bits that a reader has left.
unfoldable pub bits_of : GolombBitReader → List ℕ
unfolding low_bits bits_of_bytes
bits_of s = low_bits s.left s.buf ++ bits_of_bytes s.source

-- The number that bits stand for.
unfoldable pub value : List ℕ → ℕ
value [] = 0
value (b ∷ r) = b * 2 ^ length r + value r

unfoldable pub zeros : ℕ → List ℕ → List ℕ
zeros zero r = r
zeros (suc n) r = 0 ∷ zeros n r

-- A reader gives the first of its bits, and keeps the others.
GivesBit : GolombBitReader → ℕ → List ℕ → Type 0
GivesBit s b r = (t : GolombBitReader) × (read_bit s ≡ some (b, t)) × (bits_of t ≡ r)

Gives : GolombBitReader → List ℕ → Type 0
unfolding GivesBit
Gives s [] = read_bit s ≡ none
Gives s (b ∷ r) = GivesBit s b r

read_bit-bits_of :
    (source : List ℕ) (buf left : ℕ)
    → Gives
        (record { source = source; buf = buf; left = left })
        (bits_of (record { source = source; buf = buf; left = left }))
unfolding Gives GivesBit bits_of low_bits bits_of_bytes read_bit
read_bit-bits_of [] buf zero = refl
read_bit-bits_of (c ∷ cs) buf zero = (record { source = cs; buf = c; left = 7 }, refl, refl)
read_bit-bits_of source buf (suc left) =
    (record { source = source; buf = buf; left = left }, refl, refl)

read_bit_lem : (s : GolombBitReader) (b : ℕ) (r : List ℕ) → bits_of s ≡ b ∷ r → GivesBit s b r
unfolding Gives
read_bit_lem s b r h = subst (Gives s) h (read_bit-bits_of s.source s.buf s.left)

bit_fits : (b n : ℕ) → b < 2 → n ≤ 63 → b * 2 ^ n % 2 ^ 64 ≡ b * 2 ^ n
bit_fits zero n h k = omega arith
bit_fits (suc zero) n h k =
    let two : 0 < 2 = omega arith in
    let m : 2 ^ n ≤ 2 ^ 63 = pow-le-pow_right two k in omega (arith, m)
bit_fits (suc (suc b)) n h k = absurd (omega arith)

-- A run of bits.
read_bits_lem :
    (bs r : List ℕ) (s : GolombBitReader)
    → bits_of s ≡ bs ++ r
    → All (λ b. b < 2) bs
    → length bs ≤ 63
    → (t : GolombBitReader) × (read_bits (length bs) s ≡ some (value bs, t)) × (bits_of t ≡ r)
unfolding read_bits value GivesBit
read_bits_lem [] r s h f k = (s, refl, h)
read_bits_lem (b ∷ bs) r s h f k =
    let first = read_bit_lem s b (bs ++ r) h in
    let later = read_bits_lem bs r first.0 first.2 f.1 (omega arith) in
    (later.0, rw (first.1, later.1, bit_fits b (length bs) f.0 (omega arith)), later.2)

-- A run of zeros and the one behind it.
count_zeros_lem :
    (k i fuel : ℕ) (r : List ℕ) (s : GolombBitReader)
    → bits_of s ≡ zeros k (1 ∷ r)
    → i + k ≤ 32
    → k < fuel
    → (t : GolombBitReader) × (count_zeros fuel i s ≡ some (i + k, t)) × (bits_of t ≡ r)
unfolding count_zeros zeros GivesBit
count_zeros_lem k i zero r s h l f = absurd (omega arith)
count_zeros_lem zero i (suc fuel) r s h l f =
    let first = read_bit_lem s 1 r h in
    let same : i + 0 ≡ i = omega arith in (first.0, rw (first.1, same), first.2)
count_zeros_lem (suc k) i (suc fuel) r s h l f =
    let first = read_bit_lem s 0 (zeros k (1 ∷ r)) h in
    let later = count_zeros_lem k (i + 1) fuel r first.0 first.2 (omega arith) (omega arith) in
    let test : ltb 31 i ≡ false = ground arith in
    let same : i + suc k ≡ i + 1 + k = omega arith in
    (later.0, rw (first.1, test, later.1, same), later.2)

-- The code of a number: `k` zeros, a one, and `k` bits, with k at most 32.
unfoldable pub golomb_code : List ℕ → List ℕ → List ℕ
unfolding zeros
golomb_code bs r = zeros (length bs) (1 ∷ (bs ++ r))

-- The reader of Exp-Golomb codes, on a code of at most 32 bits after its one that stands before any
-- bits, returns 2 ^ k - 1 plus the number of these k bits, as the standard has it, and keeps the bits
-- behind the code.
pub read_exponential_golomb_code_lem :
    (bs r : List ℕ) (s : GolombBitReader)
    → bits_of s ≡ golomb_code bs r
    → All (λ b. b < 2) bs
    → length bs ≤ 32
    → (t : GolombBitReader) × (read_exponential_golomb_code s
        ≡ some (value bs + (2 ^ length bs - 1), t))
      × (bits_of t ≡ r)
unfolding read_exponential_golomb_code golomb_code
read_exponential_golomb_code_lem bs r s h f k =
    let zeros_read = count_zeros_lem (length bs) 0 33 (bs ++ r) s h (omega arith) (omega arith) in
    let bits_read = read_bits_lem bs r zeros_read.0 zeros_read.2 f (omega arith) in
    let same : 0 + length bs ≡ length bs = omega arith in
    (bits_read.0, rw (zeros_read.1, same, bits_read.1), bits_read.2)
