-- ===== src/Prelude/Scan.antt =====
-- Loops that scan a slice with an index: `for i < len(xs) && test(xs[i]) { i++ }` and the search for
-- the first or last element that passes a test.
use Prim.Native.Nat.{ℕ, zero, suc, ◌≤◌}
use mathlib.Core.Path.{◌≡◌, refl}
use mathlib.Core.Bool.{Bool, true, false}
use mathlib.Core.List.{List, [], ◌∷◌}
use mathlib.Core.Logic.{inl, inr}
use mathlib.Core.Option.{Option, none, some}
use native.Mathlib.Omega.{arith}
use vrtc_sdk.Prelude.Tests.{if◌then◌else◌, Bool-cases}
use vrtc_sdk.Prelude.Lists.{length, take, drop, All}

module _ {A : Type 0} (test : A → Bool) where
  -- The index at which the loop stops.
  abbrev pub count_while : List A → ℕ
  count_while [] = 0
  count_while (x ∷ xs) = if test x then suc (count_while xs) else 0

  -- The list is empty or its head fails the test.
  abbrev pub HeadFails : List A → Type 0
  HeadFails [] = Unit
  HeadFails (x ∷ xs) = test x ≡ false

  pub count_while-le : (xs : List A) → count_while xs ≤ length xs
  count_while-le [] = omega arith
  count_while-le (x ∷ xs) = ground (arith, count_while-le xs)

  -- The loop passes over elements that pass the test, and stops at the first that does not.
  pub count_while_stops :
      (xs : List A)
      → All (λ x. test x ≡ true) (take (count_while xs) xs) × HeadFails (drop (count_while xs) xs)
  count_while_stops [] = (tt, tt)
  count_while_stops (x ∷ xs) = ground (arith, count_while_stops xs)

  -- `for i := n - 1; i >= 0; i--`: the last of the first `n` elements that passes the test.
  abbrev pub find_last : ℕ → List A → Option ℕ
  find_last zero xs = none
  find_last (suc i) xs =
      let rest = find_last i xs in
      elim (drop i xs) [ [] ↦ rest | x ∷ _ ↦ if test x then some i else rest ]

  -- What the search returns is the index of an element that passes, with none behind it.
  abbrev pub IsLast : List A → Option ℕ → Type 0
  IsLast xs none = All (λ x. test x ≡ false) xs
  IsLast xs (some i) =
      (x : A) × (r : List A) × (drop i xs ≡ x ∷ r) × (test x ≡ true) × All (λ y. test y ≡ false) r

  drop_next : (i : ℕ) (xs : List A) {x : A} {r : List A} → drop i xs ≡ x ∷ r → drop (suc i) xs ≡ r
  drop_next zero [] e = absurd (cc)
  drop_next zero (y ∷ ys) e = cc
  drop_next (suc i) [] e = absurd (cc)
  drop_next (suc i) (y ∷ ys) e = drop_next i ys e

  pub find_last-IsLast :
      (n : ℕ) (xs : List A) → All (λ x. test x ≡ false) (drop n xs) → IsLast xs (find_last n xs)
  find_last-IsLast zero xs h = h
  find_last-IsLast (suc i) xs h = go (drop i xs) refl (λ k. find_last-IsLast i xs k)
    where
      go :
          (l : List A)
          → drop i xs ≡ l
          → (All (λ x. test x ≡ false) (drop i xs) → IsLast xs (find_last i xs))
          → IsLast xs
              (elim l [ [] ↦ find_last i xs | x ∷ _ ↦ if test x then some i else find_last i xs ])
      go [] e ih = ih (rw e tt)
      go (x ∷ r) e ih = elim (Bool-cases (test x)) [
        | inl passes ↦ rw passes (x, r, e, passes, rw (drop_next i xs e) at h)
        | inr fails ↦ rw fails (ih (rw e (fails, rw (drop_next i xs e) at h)))
      ]
