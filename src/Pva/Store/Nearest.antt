-- ===== src/Pva/Store/Nearest.antt =====
-- What `lookup` finds.
use vrtc_sdk.Prelude.{
  ℕ, zero, suc, ◌-◌, ◌*◌, ◌^◌, ◌≤◌, ◌<◌, ◌≡◌, refl, sym, arith, ◌⊎◌, inl, inr, true, not, Option,
  none, some, List, [], ◌∷◌,
}
use vrtc_sdk.Prelude.{get_elem?, All, ltb, if◌then◌else◌, Bool-cases}
use mathlib.Core.Path.{subst}
use vrtc_sdk.Prelude.Scan.{count_while}
use vrtc_sdk.Prelude.Int.{ltb_ℤ}
use vrtc_sdk.Pva.Store.{Entry, lookup_entry, choose, diff, in_tolerance, is_from}
use vrtc_sdk.Pva.Store.Distance.{
  distance, IsRecent, IsNear, in_tolerance-IsNear, far_of, nearer_of, not_nearer_of,
}
use vrtc_sdk.Pva.Store.Order.{IsSorted, search-sorted, is_from-Rising}

abbrev pub Member : Entry → List Entry → Type 0
Member b [] = ⊥
Member b (x ∷ xs) = (b ≡ x) ⊎ Member b xs

-- None of the entries is within 200 ms; or the entry is one of them, is within 200 ms, and none of them
-- is nearer.
abbrev pub Nearest : ℕ → List Entry → Option Entry → Type 0
Nearest t l none = All (λ y. 200 * 10 ^ 6 < distance y.wall_clock t) l
Nearest t l (some b) =
    IsNear t b × All (λ y. distance b.wall_clock t ≤ distance y.wall_clock t) l × Member b l

-- The search and the choice in one pass, with the entry before.
unfoldable pub scan : ℕ → Option Entry → List Entry → Option Entry
scan t prev [] = choose t none prev
scan t prev (x ∷ xs) =
    let rest = scan t (some x) xs in if ltb x.wall_clock t then rest else choose t (some x) prev

-- The entry before an index.
before : Option Entry → List Entry → ℕ → Option Entry
before prev xs i = if ltb 0 i then get_elem? xs (i - 1) else prev

before-suc :
    (prev : Option Entry) (x : Entry) (xs : List Entry) (i : ℕ)
    → before prev (x ∷ xs) (suc i) ≡ before (some x) xs i
unfolding before
before-suc prev x xs zero = refl
before-suc prev x xs (suc i) =
    let e : suc (suc i) - 1 ≡ suc (suc i - 1) = omega arith in rw e (ground arith)

choose-scan :
    (t : ℕ) (prev : Option Entry) (xs : List Entry)
    → let pos = count_while (λ x. not (is_from t x)) xs in
      choose t (get_elem? xs pos) (before prev xs pos) ≡ scan t prev xs
unfolding scan
choose-scan t prev [] = unfold before in refl
choose-scan t prev (x ∷ xs) = elim (Bool-cases (ltb x.wall_clock t)) [
  | inl h ↦
      rw (h, before-suc prev x xs (count_while (λ y. not (is_from t y)) xs))
        (choose-scan t (some x) xs)
  | inr h ↦ rw h (unfold before in refl)
]

abbrev with_prev : Option Entry → List Entry → List Entry
with_prev none xs = xs
with_prev (some p) xs = p ∷ xs

abbrev pub OnPrev : Option Entry → (Entry → Type 0) → Type 0
OnPrev none P = Unit
OnPrev (some p) P = P p

-- Entries in order, from `x` on, are no nearer than `x`.
no_nearer :
    (t d : ℕ) (x : Entry) (xs : List Entry)
    → t ≤ x.wall_clock
    → d ≤ distance x.wall_clock t
    → All (λ y. x.wall_clock ≤ y.wall_clock) xs
    → All (λ y. d ≤ distance y.wall_clock t) xs
no_nearer t d x [] le far h = tt
no_nearer t d x (y ∷ ys) le far h = (omega (arith, far, h.0), no_nearer t d x ys le far h.1)

-- The choice at the first entry that is not before `t`.
choose-Nearest :
    (t : ℕ) (prev : Option Entry) (x : Entry) (xs : List Entry)
    → OnPrev prev (IsRecent t)
    → t ≤ x.wall_clock
    → All (λ y. x.wall_clock ≤ y.wall_clock) xs
    → Nearest t (with_prev prev (x ∷ xs)) (choose t (some x) prev)
unfolding choose
choose-Nearest t none x xs recent le h = elim (Bool-cases (in_tolerance t x)) [
  | inl ok ↦ rw ok (
    in_tolerance-IsNear t x (omega arith) ok,
    (omega arith, no_nearer t _ x xs le (omega arith) h),
    inl refl,
  )
  | inr off ↦ let far = far_of t x (omega arith) off in rw off (far, no_nearer t _ x xs le far h)
]
choose-Nearest t (some p) x xs recent le h = elim (Bool-cases (in_tolerance t p)) [
  | inl near ↦ elim (Bool-cases (in_tolerance t x)) [
    | inl ok ↦ elim (Bool-cases (ltb_ℤ (diff p.wall_clock t) (diff x.wall_clock t))) [
      | inl nearer ↦
          let closer = nearer_of t p x recent (omega arith) nearer in
          rw (near, ok) (rw nearer (take_prev near closer))
      | inr not_nearer ↦
          let closer = not_nearer_of t p x recent (omega arith) near not_nearer in
          rw (near, ok) (rw not_nearer (take_next ok closer))
    ]
    | inr off ↦
        let far = far_of t x (omega arith) off in
        rw (near, off) (take_prev near (omega (arith, far, in_tolerance-IsNear t p recent near)))
  ]
  | inr p_off ↦
      let p_far = far_of t p recent p_off in
      elim (Bool-cases (in_tolerance t x)) [
        | inl ok ↦
            rw (p_off, ok)
              (take_next ok (omega (arith, p_far, in_tolerance-IsNear t x (omega arith) ok)))
        | inr off ↦
            let far = far_of t x (omega arith) off in
            rw (p_off, off) (p_far, (far, no_nearer t _ x xs le far h))
      ]
]
  where
    take_prev :
        in_tolerance t p ≡ true
        → distance p.wall_clock t ≤ distance x.wall_clock t
        → Nearest t (p ∷ x ∷ xs) (some p)
    take_prev near closer = (
      in_tolerance-IsNear t p recent near,
      (omega arith, (closer, no_nearer t (distance p.wall_clock t) x xs le closer h)),
      inl refl,
    )

    take_next :
        in_tolerance t x ≡ true
        → distance x.wall_clock t ≤ distance p.wall_clock t
        → Nearest t (p ∷ x ∷ xs) (some x)
    take_next ok closer = (
      in_tolerance-IsNear t x (omega arith) ok,
      (closer, (omega arith, no_nearer t (distance x.wall_clock t) x xs le (omega arith) h)),
      inr (inl refl),
    )

-- An entry that is further off than the next one, which is not behind `t` either, changes nothing.
add_further :
    (t : ℕ) (p x : Entry) (xs : List Entry) (r : Option Entry)
    → p.wall_clock ≤ x.wall_clock
    → x.wall_clock < t
    → Nearest t (x ∷ xs) r
    → Nearest t (p ∷ x ∷ xs) r
add_further t p x xs none le lt (far, rest) = (omega (arith, far), (far, rest))
add_further t p x xs (some b) le lt (ok, (closer, rest), m) =
    (ok, (omega (arith, closer), (closer, rest)), inr m)

scan-Nearest :
    (t : ℕ) (prev : Option Entry) (xs : List Entry)
    → OnPrev prev (λ p. p.wall_clock < t)
    → All (IsRecent t) (with_prev prev xs)
    → IsSorted (with_prev prev xs)
    → Nearest t (with_prev prev xs) (scan t prev xs)
unfolding scan
scan-Nearest t none [] b recent s = unfold choose in tt
scan-Nearest t (some p) [] b recent s =
    unfold choose in
    elim (Bool-cases (in_tolerance t p)) [
      | inl ok ↦ rw ok (in_tolerance-IsNear t p recent.0 ok, (omega arith, tt), inl refl)
      | inr off ↦ rw off (far_of t p recent.0 off, tt)
    ]
scan-Nearest t none (x ∷ xs) b recent s = elim (Bool-cases (ltb x.wall_clock t)) [
  | inl h ↦ rw h (scan-Nearest t (some x) xs (ground arith) recent s)
  | inr h ↦ rw h (choose-Nearest t none x xs tt (ground arith) s.0)
]
scan-Nearest t (some p) (x ∷ xs) b recent s = elim (Bool-cases (ltb x.wall_clock t)) [
  | inl h ↦ rw h (
      add_further t p x xs (scan t (some x) xs) s.0.0 (ground arith)
        (scan-Nearest t (some x) xs (ground arith) recent.1 s.1))
  | inr h ↦ rw h (choose-Nearest t (some p) x xs recent.0 (ground arith) s.1.0)
]

pub lookup_entry-scan :
    (entries : List Entry) (t : ℕ) → IsSorted entries → lookup_entry entries t ≡ scan t none entries
unfolding lookup_entry before
lookup_entry-scan entries t s =
    rw (search-sorted (is_from t) entries (is_from-Rising t) s) (choose-scan t none entries)

-- On entries in order of time, none of which is 2 ^ 63 nanoseconds or more before the time asked for,
-- `lookup` ends with an entry within 200 ms of that time than which none is nearer, and with none
-- exactly if no entry is within 200 ms.
pub lookup_entry-Nearest :
    (entries : List Entry) (t : ℕ)
    → IsSorted entries
    → All (IsRecent t) entries
    → Nearest t entries (lookup_entry entries t)
lookup_entry-Nearest entries t s recent =
    subst (Nearest t entries) (sym (lookup_entry-scan entries t s))
      (scan-Nearest t none entries tt recent s)
