-- ===== src/Prelude/Search.antt =====
-- Go's `sort.Search`: binary search for the first index at which a test holds.
use Prim.Native.Nat.{ℕ, zero, suc, ◌+◌, ◌/◌, ◌≤◌, ◌<◌}
use mathlib.Core.Path.{◌≡◌, refl, ap, sym, ◌∙◌}
use mathlib.Core.Logic.{inl, inr}
use mathlib.Core.Bool.{Bool, true, false, not}
use mathlib.Core.List.{List, [], ◌∷◌}
use native.Mathlib.Omega.{arith}
use vrtc_sdk.Prelude.Tests.{ltb, if◌then◌else◌, Bool-cases}
use vrtc_sdk.Prelude.Lists.{length}
use vrtc_sdk.Prelude.Scan.{count_while}

search_loop : ℕ → (ℕ → Bool) → ℕ → ℕ → ℕ
search_loop zero f i j = i
search_loop (suc fuel) f i j =
    let h = (i + j) / 2 in
    let up = search_loop fuel f (h + 1) j in
    let down = search_loop fuel f i h in if ltb i j then (if f h then down else up) else i

unfoldable pub search : ℕ → (ℕ → Bool) → ℕ
unfolding search_loop
search n f = search_loop (suc n) f 0 n

-- Below `r` the test fails, and from `r` on it holds, up to `n`.
record Splits (n : ℕ) (f : ℕ → Bool) (r : ℕ) : Type 0 where
  within : r ≤ n
  below : (k : ℕ) → k < r → f k ≡ false
  above : (k : ℕ) → r ≤ k → k < n → f k ≡ true

search_loop-Splits :
    (n : ℕ) (f : ℕ → Bool)
    → ((k l : ℕ) → k ≤ l → l < n → f k ≡ true → f l ≡ true)
    → (fuel i j : ℕ) → j < fuel + i
    → i ≤ j
    → j ≤ n
    → ((k : ℕ) → k < i → f k ≡ false)
    → ((k : ℕ) → j ≤ k → k < n → f k ≡ true)
    → Splits n f (search_loop fuel f i j)
unfolding search_loop
search_loop-Splits n f mono zero i j enough ij jn below above = absurd (omega arith)
search_loop-Splits n f mono (suc fuel) i j enough ij jn below above = elim (Bool-cases (ltb i j)) [
  | inr done ↦
      let e : i ≡ j = ground arith in
      rw done
        (record { within = omega arith; below = below; above = λ k ge. above k (omega arith) })
  | inl more ↦ elim (Bool-cases (f ((i + j) / 2))) [
    | inl hit ↦
        rw (more, hit)
          (search_loop-Splits n f mono fuel i ((i + j) / 2) (ground arith) (omega arith)
            (ground arith) below (λ k ge lt. mono ((i + j) / 2) k ge lt hit))
    | inr miss ↦
        rw (more, miss)
          (search_loop-Splits n f mono fuel ((i + j) / 2 + 1) j (omega arith) (ground arith) jn
            (λ k lt. elim (Bool-cases (f k)) [
              | inl t ↦
                  let x : true ≡ false =
                    sym (mono k ((i + j) / 2) (omega arith) (ground arith) t) ∙ miss in
                  absurd (cc)
              | inr t ↦ t
            ])
            above)
  ]
]

module _ {A : Type 0} where
  -- The test at an index of a list.
  abbrev pub at : (A → Bool) → List A → ℕ → Bool
  at p [] i = false
  at p (x ∷ xs) zero = p x
  at p (x ∷ xs) (suc i) = at p xs i

  Splits-count_while :
      (q : A → Bool) (xs : List A) (r : ℕ)
      → r ≤ length xs
      → ((k : ℕ) → k < r → at q xs k ≡ false)
      → (r < length xs → at q xs r ≡ true)
      → r ≡ count_while (λ x. not (q x)) xs
  Splits-count_while q [] zero le below at_r = refl
  Splits-count_while q [] (suc r) le below at_r = absurd (omega arith)
  Splits-count_while q (x ∷ xs) zero le below at_r = rw (at_r (omega arith)) refl
  Splits-count_while q (x ∷ xs) (suc r) le below at_r = rw (below 0 (omega arith)) (
      ap suc (
        Splits-count_while q xs r (omega arith) (λ k lt. below (suc k) (omega arith))
          (λ lt. at_r (omega arith))))

  -- On a list on which a test holds from some point on, the search finds that point.
  pub search-count_while :
      (q : A → Bool) (xs : List A)
      → ((k l : ℕ) → k ≤ l → l < length xs → at q xs k ≡ true → at q xs l ≡ true)
      → search (length xs) (at q xs) ≡ count_while (λ x. not (q x)) xs
  search-count_while q xs mono =
      let s : Splits (length xs) (at q xs) (search (length xs) (at q xs)) =
        unfold search in
        search_loop-Splits (length xs) (at q xs) mono (suc (length xs)) 0 (length xs) (omega arith)
          (omega arith) (omega arith) (λ k lt. absurd (omega arith))
          (λ k ge lt. absurd (omega arith)) in
      Splits-count_while q xs (search (length xs) (at q xs)) s.within s.below
        (λ lt. s.above _ (omega arith) lt)
