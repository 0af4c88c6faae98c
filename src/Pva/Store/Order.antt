-- ===== src/Pva/Store/Order.antt =====
-- The order of the entries of a source.
use vrtc_sdk.Prelude.{
  ℕ, zero, suc, ◌≤◌, ◌<◌, ◌≡◌, refl, ap, ◌∙◌, arith, Bool, true, not, List, [], ◌∷◌, ◌++◌, inl, inr,
}
use vrtc_sdk.Prelude.{length, take, drop, All, ltb, if◌then◌else◌, Bool-cases}
use vrtc_sdk.Prelude.Scan.{count_while}
use vrtc_sdk.Prelude.Search.{search, at, search-count_while}
use vrtc_sdk.Pva.Store.{Entry, put_entries, is_fresh, is_from}

abbrev pub IsSorted : List Entry → Type 0
IsSorted [] = Unit
IsSorted (x ∷ xs) = All (λ y. x.wall_clock ≤ y.wall_clock) xs × IsSorted xs

-- A test that holds of later entries where it holds.
abbrev pub Rising : (Entry → Bool) → Type 0
Rising q = (x y : Entry) → x.wall_clock ≤ y.wall_clock → q x ≡ true → q y ≡ true

at-All :
    (q : Entry → Bool) (xs : List Entry) (l : ℕ)
    → All (λ y. q y ≡ true) xs
    → l < length xs
    → at q xs l ≡ true
at-All q [] l h lt = absurd (omega arith)
at-All q (x ∷ xs) zero h lt = h.0
at-All q (x ∷ xs) (suc l) h lt = at-All q xs l h.1 (omega arith)

All-rise :
    (q : Entry → Bool) (x : Entry) (xs : List Entry)
    → Rising q
    → q x ≡ true
    → All (λ y. x.wall_clock ≤ y.wall_clock) xs
    → All (λ y. q y ≡ true) xs
All-rise q x [] r h a = tt
All-rise q x (y ∷ ys) r h a = (r x y a.0 h, All-rise q x ys r h a.1)

at_rises :
    (q : Entry → Bool) (xs : List Entry)
    → Rising q
    → IsSorted xs
    → (k l : ℕ) → k ≤ l
    → l < length xs
    → at q xs k ≡ true
    → at q xs l ≡ true
at_rises q [] r s k l le lt h = absurd (omega arith)
at_rises q (x ∷ xs) r s zero l le lt h = at-All q (x ∷ xs) l (h, All-rise q x xs r h s.0) lt
at_rises q (x ∷ xs) r s (suc k) zero le lt h = absurd (omega arith)
at_rises q (x ∷ xs) r s (suc k) (suc l) le lt h =
    at_rises q xs r s.1 k l (omega arith) (omega arith) h

-- The search on sorted entries.
pub search-sorted :
    (q : Entry → Bool) (xs : List Entry)
    → Rising q
    → IsSorted xs
    → search (length xs) (at q xs) ≡ count_while (λ x. not (q x)) xs
search-sorted q xs r s = search-count_while q xs (at_rises q xs r s)

pub is_fresh-Rising : (ttl now : ℕ) → Rising (is_fresh ttl now)
is_fresh-Rising ttl now x y le h = ground arith

pub is_from-Rising : (t : ℕ) → Rising (is_from t)
is_from-Rising t x y le h = ground arith

-- The entries that pass a test, in order.
pub keep : (Entry → Bool) → List Entry → List Entry
keep q [] = []
keep q (x ∷ xs) = if q x then x ∷ keep q xs else keep q xs

pub All-keep :
    (q : Entry → Bool) (P : Entry → Type 0) (xs : List Entry)
    → All (λ x. q x ≡ true → P x) xs
    → All P (keep q xs)
unfolding keep
All-keep q P [] h = tt
All-keep q P (x ∷ xs) h = elim (Bool-cases (q x)) [
  | inl h1 ↦ rw h1 (h.0 h1, All-keep q P xs h.1)
  | inr h0 ↦ rw h0 (All-keep q P xs h.1)
]

-- A new entry at its place, before those of the same time.
unfoldable pub insert : Entry → List Entry → List Entry
insert e [] = e ∷ []
insert e (x ∷ xs) = if ltb x.wall_clock e.wall_clock then x ∷ insert e xs else e ∷ x ∷ xs

keep_fresh-All : (q : Entry → Bool) (xs : List Entry) → All (λ y. q y ≡ true) xs → keep q xs ≡ xs
unfolding keep
keep_fresh-All q [] h = refl
keep_fresh-All q (x ∷ xs) h = rw (h.0, keep_fresh-All q xs h.1) refl

drop-keep :
    (q : Entry → Bool) (xs : List Entry)
    → Rising q
    → IsSorted xs
    → drop (count_while (λ x. not (q x)) xs) xs ≡ keep q xs
unfolding keep
drop-keep q [] r s = refl
drop-keep q (x ∷ xs) r s = elim (Bool-cases (q x)) [
  | inl h ↦ rw (h, keep_fresh-All q xs (All-rise q x xs r h s.0)) refl
  | inr h ↦ rw h (drop-keep q xs r s.1)
]

take-insert :
    (e : Entry) (xs : List Entry)
    → let pos = count_while (λ x. not (is_from e.wall_clock x)) xs in
      take pos xs ++ (e ∷ drop pos xs) ≡ insert e xs
unfolding insert
take-insert e [] = refl
take-insert e (x ∷ xs) = elim (Bool-cases (ltb x.wall_clock e.wall_clock)) [
  | inl h ↦ rw h (ap (λ l. x ∷ l) (take-insert e xs))
  | inr h ↦ rw h refl
]

keep-All : (P : Entry → Type 0) (q : Entry → Bool) (xs : List Entry) → All P xs → All P (keep q xs)
unfolding keep
keep-All P q [] h = tt
keep-All P q (x ∷ xs) h = elim (Bool-cases (q x)) [
  | inl t ↦ rw t (h.0, keep-All P q xs h.1)
  | inr t ↦ rw t (keep-All P q xs h.1)
]

keep-IsSorted : (q : Entry → Bool) (xs : List Entry) → IsSorted xs → IsSorted (keep q xs)
unfolding keep
keep-IsSorted q [] s = tt
keep-IsSorted q (x ∷ xs) s = elim (Bool-cases (q x)) [
  | inl t ↦ rw t (keep-All (λ y. x.wall_clock ≤ y.wall_clock) q xs s.0, keep-IsSorted q xs s.1)
  | inr t ↦ rw t (keep-IsSorted q xs s.1)
]

insert-All :
    (P : Entry → Type 0) (e : Entry) (xs : List Entry) → P e → All P xs → All P (insert e xs)
unfolding insert
insert-All P e [] p h = (p, tt)
insert-All P e (x ∷ xs) p h = elim (Bool-cases (ltb x.wall_clock e.wall_clock)) [
  | inl t ↦ rw t (h.0, insert-All P e xs p h.1)
  | inr t ↦ rw t (p, h)
]

All-later :
    (e x : Entry) (xs : List Entry)
    → e.wall_clock ≤ x.wall_clock
    → All (λ y. x.wall_clock ≤ y.wall_clock) xs
    → All (λ y. e.wall_clock ≤ y.wall_clock) xs
All-later e x [] le h = tt
All-later e x (y ∷ ys) le h = (omega (arith, h.0), All-later e x ys le h.1)

insert-IsSorted : (e : Entry) (xs : List Entry) → IsSorted xs → IsSorted (insert e xs)
unfolding insert
insert-IsSorted e [] s = (tt, tt)
insert-IsSorted e (x ∷ xs) s = elim (Bool-cases (ltb x.wall_clock e.wall_clock)) [
  | inl t ↦ rw t (
    insert-All (λ y. x.wall_clock ≤ y.wall_clock) e xs (ground arith) s.0,
    insert-IsSorted e xs s.1,
  )
  | inr t ↦
      let le : e.wall_clock ≤ x.wall_clock = ground arith in rw t ((le, All-later e x xs le s.0), s)
]

-- On entries in order of time, `Put` with its two binary searches drops exactly the entries that are
-- past their time to live and puts the new one at its place, ahead of those of the same time; the
-- entries stay in order.
pub put_entries-insert :
    (ttl now : ℕ) (entries : List Entry) (e : Entry)
    → IsSorted entries
    → (put_entries ttl now entries e ≡ insert e (keep (is_fresh ttl now) entries))
      × IsSorted (put_entries ttl now entries e)
put_entries-insert ttl now entries e s = (same, rw same (insert-IsSorted e kept kept-IsSorted))
  where
    kept : List Entry
    kept = keep (is_fresh ttl now) entries

    kept-IsSorted : IsSorted kept
    kept-IsSorted = keep-IsSorted (is_fresh ttl now) entries s

    found : drop (search (length entries) (at (is_fresh ttl now) entries)) entries ≡ kept
    found =
        ap (λ n. drop n entries)
          (search-sorted (is_fresh ttl now) entries (is_fresh-Rising ttl now) s)
        ∙ drop-keep (is_fresh ttl now) entries (is_fresh-Rising ttl now) s

    same : put_entries ttl now entries e ≡ insert e kept
    same =
        unfold put_entries in
        rw
          (
            found,
            search-sorted (is_from e.wall_clock) kept (is_from-Rising e.wall_clock) kept-IsSorted,
          )
          (take-insert e kept)
