-- ===== src/Prelude/Int.antt =====
-- Signed integers over the native numbers, and the arithmetic of Go's int64 on them.
use Prim.Native.Nat.{ℕ, zero, suc, ◌+◌, ◌-◌, ◌*◌, ◌/◌, ◌%◌, ◌^◌, ◌<◌, ◌≤◌}
use mathlib.Core.Path.{◌≡◌}
use mathlib.Core.Bool.{Bool}
use native.Mathlib.Omega.{arith}
use mathlib.Core.Logic.{inl, inr}
use vrtc_sdk.Prelude.Tests.{Bool-cases, ltb→lt, ltb, if◌then◌else◌}

-- `negsuc n` is -(n + 1).
pub data ℤ : Type 0 where
  pos : ℕ → ℤ
  negsuc : ℕ → ℤ

abbrev pub pos_part : ℤ → ℕ
pos_part (pos n) = n
pos_part (negsuc n) = 0

abbrev pub neg_part : ℤ → ℕ
neg_part (pos n) = 0
neg_part (negsuc n) = suc n

abbrev pub ltb_ℤ : ℤ → ℤ → Bool
ltb_ℤ a b = ltb (pos_part a + neg_part b) (pos_part b + neg_part a)

-- The 64-bit two's complement pattern of an integer, and the integer of a pattern.
to_word : ℤ → ℕ
to_word (pos n) = n % 2 ^ 64
to_word (negsuc n) = 2 ^ 64 - 1 - n % 2 ^ 64

of_word : ℕ → ℤ
of_word w = if ltb w (2 ^ 63) then pos w else negsuc (2 ^ 64 - 1 - w)

-- `a + b` on int64, which wraps.
unfoldable pub add64 : ℤ → ℤ → ℤ
unfolding to_word of_word
add64 a b = of_word ((to_word a + to_word b) % 2 ^ 64)

pub add64_pos : (a b : ℕ) → a + b < 2 ^ 63 → add64 (pos a) (pos b) ≡ pos (a + b)
unfolding add64
add64_pos a b h = ground arith

-- `a - b` on int64, which wraps.
unfoldable pub sub64 : ℤ → ℤ → ℤ
unfolding to_word of_word
sub64 a b = of_word ((to_word a + (2 ^ 64 - to_word b)) % 2 ^ 64)

-- `a * n` on int64 for a number that is not negative.
unfoldable pub scale64 : ℤ → ℕ → ℤ
unfolding to_word of_word
scale64 a n = of_word (to_word a * n % 2 ^ 64)

-- Division by a positive number, which truncates.
pub quot : ℤ → ℕ → ℤ
quot (pos n) k = pos (n / k)
quot (negsuc n) k = elim (suc n / k) as (λ _. ℤ) [ zero ↦ pos 0 | suc q ↦ negsuc q ]

-- Conversions to uint32 and int32.
pub to_uint32 : ℤ → ℕ
unfolding to_word
to_uint32 a = to_word a % 2 ^ 32

pub to_int32 : ℤ → ℤ
unfolding to_word
to_int32 a = let w = to_word a % 2 ^ 32 in if ltb w (2 ^ 31) then pos w else negsuc (2 ^ 32 - 1 - w)

-- Conversions of int64 to uint64 and back.
pub to_uint64 : ℤ → ℕ
unfolding to_word
to_uint64 a = to_word a

pub of_uint64 : ℕ → ℤ
unfolding of_word
of_uint64 w = of_word (w % 2 ^ 64)

-- The int64 and int32 values.
abbrev pub IsInt64 : ℤ → Type 0
IsInt64 (pos n) = n < 2 ^ 63
IsInt64 (negsuc n) = n < 2 ^ 63

abbrev pub IsInt32 : ℤ → Type 0
IsInt32 (pos n) = n < 2 ^ 31
IsInt32 (negsuc n) = n < 2 ^ 31

pub of_uint64-to_uint64 :
    (a : ℤ) → IsInt64 a → (of_uint64 (to_uint64 a) ≡ a) × (to_uint64 a < 2 ^ 64)
unfolding of_uint64 to_uint64
of_uint64-to_uint64 (pos n) h = ground arith
of_uint64-to_uint64 (negsuc n) h = ground arith

pub to_int32-to_uint32 :
    (a : ℤ) → IsInt32 a → (to_int32 (pos (to_uint32 a)) ≡ a) × (to_uint32 a < 2 ^ 32)
unfolding to_int32 to_uint32
to_int32-to_uint32 (pos n) h = ground arith
to_int32-to_uint32 (negsuc n) h = ground arith

pub sub64_pos : (a b : ℕ) → b ≤ a → a < 2 ^ 63 → sub64 (pos a) (pos b) ≡ pos (a - b)
unfolding sub64
sub64_pos a b h k = ground arith

pub to_int32_pos : (n : ℕ) → n < 2 ^ 31 → to_int32 (pos n) ≡ pos n
unfolding to_int32
to_int32_pos n h = ground arith

pub to_uint32_small : (a : ℤ) → to_uint32 a < 2 ^ 32
unfolding to_uint32
to_uint32_small a = omega arith

IsInt32-of :
    (w : ℕ) → w < 2 ^ 32 → IsInt32 (if ltb w (2 ^ 31) then pos w else negsuc (2 ^ 32 - 1 - w))
IsInt32-of w h = elim (Bool-cases (ltb w (2 ^ 31))) [
  | inl e ↦ rw e (ltb→lt w (2 ^ 31) e)
  | inr e ↦ rw e (ground arith)
]

pub to_int32-IsInt32 : (a : ℤ) → IsInt32 (to_int32 a)
unfolding to_int32
to_int32-IsInt32 a = IsInt32-of _ (omega arith)
