-- ===== src/Prelude/Bits.antt =====
-- The native bit operations at variables. Each one works digit by digit, so it treats the high part
-- and the low part of a word apart; shifts, masks and disjoint fields follow as arithmetic.
use Prim.Native.Nat.{
  ℕ, zero, suc, ◌+◌, ◌-◌, ◌*◌, ◌/◌, ◌%◌, ◌^◌, ◌≤◌, ◌<◌, min, max, bit_and, bit_or, bit_xor, digits,
  differ, bit_and-bitwise, bit_or-bitwise, bit_xor-bitwise,
}
use mathlib.Core.Path.{◌≡◌, refl, ap}
use native.Mathlib.Omega.{arith}
use native.Mathlib.Nat.{pow-suc, one-le-pow}

-- The fuel of `digits` does not matter once it covers the first number.
module _ (z : ℕ → ℕ) (f : ℕ → ℕ → ℕ) where
  digits-fuel : (n m a b : ℕ) → a ≤ n → a ≤ m → digits z f n a b ≡ digits z f m a b
  digits-fuel zero zero zero b h k = refl
  digits-fuel zero (suc m) zero b h k = refl
  digits-fuel (suc n) zero zero b h k = refl
  digits-fuel (suc n) (suc m) zero b h k = refl
  digits-fuel zero m (suc a) b h k = absurd (omega arith)
  digits-fuel (suc n) zero (suc a) b h k = absurd (omega arith)
  digits-fuel (suc n) (suc m) (suc a) b h k =
      ground (arith, digits-fuel n m (suc a / 2) (b / 2) (omega arith) (omega arith))

-- An operation that combines the lowest digits by `f` and goes on with the halves.
record IsDigitwise (op f : ℕ → ℕ → ℕ) : Type 0 where
  step : (a b : ℕ) → op a b ≡ op (a / 2) (b / 2) * 2 + f (a % 2) (b % 2)
  origin : op 0 0 ≡ 0

module _ {op f : ℕ → ℕ → ℕ} (d : IsDigitwise op f) where
  double_pow : (q k : ℕ) → q * 2 ^ suc k ≡ q * 2 ^ k * 2
  double_pow q k = omega (arith, ap (λ (t : ℕ). q * t) (pow-suc 2 k))

  -- The high part and the low part do not mix.
  op_fields :
      (k q r p s : ℕ)
      → r < 2 ^ k
      → s < 2 ^ k
      → op (q * 2 ^ k + r) (p * 2 ^ k + s) ≡ op q p * 2 ^ k + op r s
  op_fields zero q r p s hr hs = ground (arith, d.origin)
  op_fields (suc k) q r p s hr hs = ground (
    arith,
    d.step (q * 2 ^ suc k + r) (p * 2 ^ suc k + s),
    d.step r s,
    double_pow q k,
    double_pow p k,
    double_pow (op q p) k,
    pow-suc 2 k,
    op_fields k q (r / 2) p (s / 2),
  )

or_step : IsDigitwise bit_or max
or_step = record { step = halves; origin = refl }
  where
    halves : (a b : ℕ) → bit_or a b ≡ bit_or (a / 2) (b / 2) * 2 + max (a % 2) (b % 2)
    halves zero b = omega (arith, bit_or-bitwise 0 b, bit_or-bitwise 0 (b / 2))
    halves (suc a) b = omega (
      arith,
      bit_or-bitwise (suc a) b,
      bit_or-bitwise (suc a / 2) (b / 2),
      digits-fuel (λ y. y) max a (suc a / 2) (suc a / 2) (b / 2) (omega arith) (omega arith),
    )

and_step : IsDigitwise bit_and min
and_step = record { step = halves; origin = refl }
  where
    halves : (a b : ℕ) → bit_and a b ≡ bit_and (a / 2) (b / 2) * 2 + min (a % 2) (b % 2)
    halves zero b = omega (arith, bit_and-bitwise 0 b, bit_and-bitwise 0 (b / 2))
    halves (suc a) b = omega (
      arith,
      bit_and-bitwise (suc a) b,
      bit_and-bitwise (suc a / 2) (b / 2),
      digits-fuel (λ y. 0) min a (suc a / 2) (suc a / 2) (b / 2) (omega arith) (omega arith),
    )

differ_origin : (y : ℕ) → differ 0 y ≡ y
differ_origin y = refl

xor_step : IsDigitwise bit_xor differ
xor_step = record { step = halves; origin = refl }
  where
    halves : (a b : ℕ) → bit_xor a b ≡ bit_xor (a / 2) (b / 2) * 2 + differ (a % 2) (b % 2)
    halves zero b =
        omega (arith, bit_xor-bitwise 0 b, bit_xor-bitwise 0 (b / 2), differ_origin (b % 2))
    halves (suc a) b = omega (
      arith,
      bit_xor-bitwise (suc a) b,
      bit_xor-bitwise (suc a / 2) (b / 2),
      digits-fuel (λ y. y) differ a (suc a / 2) (suc a / 2) (b / 2) (omega arith) (omega arith),
    )

-- Laws at one argument, by strong induction on the digits, here on a bound.
or_zero_below : (n a : ℕ) → a ≤ n → bit_or a 0 ≡ a
or_zero_below n zero h = refl
or_zero_below zero (suc a) h = absurd (omega arith)
or_zero_below (suc n) (suc a) h =
    omega (arith, or_step.step (suc a) 0, or_zero_below n (suc a / 2) (omega arith))

pub or_zero : (a : ℕ) → bit_or a 0 ≡ a
or_zero a = or_zero_below a a (omega arith)

pub zero_or : (b : ℕ) → bit_or 0 b ≡ b
zero_or b = bit_or-bitwise 0 b

and_zero_below : (n a : ℕ) → a ≤ n → bit_and a 0 ≡ 0
and_zero_below n zero h = refl
and_zero_below zero (suc a) h = absurd (omega arith)
and_zero_below (suc n) (suc a) h =
    omega (arith, and_step.step (suc a) 0, and_zero_below n (suc a / 2) (omega arith))

pub and_zero : (a : ℕ) → bit_and a 0 ≡ 0
and_zero a = and_zero_below a a (omega arith)

pub zero_and : (b : ℕ) → bit_and 0 b ≡ 0
zero_and b = bit_and-bitwise 0 b

-- A word or'ed with bits below its lowest one is their sum.
pub or_low : (k q r : ℕ) → r < 2 ^ k → bit_or (q * 2 ^ k) r ≡ q * 2 ^ k + r
or_low k q r h = ground (arith, op_fields or_step k q 0 0 r, or_zero q, zero_or r, one-le-pow k 2)

-- A mask of `k` ones keeps the remainder by `2 ^ k`.
and_mask_low : (k r : ℕ) → r < 2 ^ k → bit_and r (2 ^ k - 1) ≡ r
and_mask_low zero r h = ground (arith)
and_mask_low (suc k) r h =
    ground
      (arith, and_step.step r (2 ^ suc k - 1), pow-suc 2 k, one-le-pow k 2, and_mask_low k (r / 2))

pub and_mask : (k a : ℕ) → bit_and a (2 ^ k - 1) ≡ a % 2 ^ k
and_mask k a = ground (
  arith,
  one-le-pow k 2,
  op_fields and_step k (a / 2 ^ k) (a % 2 ^ k) 0 (2 ^ k - 1),
  and_zero (a / 2 ^ k),
  and_mask_low k (a % 2 ^ k),
)
