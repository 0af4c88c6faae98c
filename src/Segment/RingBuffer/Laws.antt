-- ===== src/Segment/RingBuffer/Laws.antt =====
-- What a ring buffer holds and what its readers get.
use vrtc_sdk.Prelude.{
  ℕ, zero, suc, ◌+◌, ◌-◌, ◌≤◌, ◌≡◌, refl, sym, ◌∙◌, arith, true, false, List, [], ◌∷◌, ◌++◌, Option,
  none, some,
}
use vrtc_sdk.Prelude.{take, drop, All, ltb, if◌then◌else◌, Bool-cases, inl, inr}
use mathlib.Core.Path.{subst}
use vrtc_sdk.Prelude.Int.{ℤ, ltb_ℤ}
use vrtc_sdk.Prelude.Scan.{count_while, count_while_stops, HeadFails}
use vrtc_sdk.Segment.RingBuffer.{Fragment, RingBuffer, push, is_expired, read_from, find_from}

-- The fragments from the first one on that is not before `from_dts`.
pub since : ℤ → List Fragment → List Fragment
since from_dts [] = []
since from_dts (f ∷ fs) = if ltb_ℤ f.dts from_dts then since from_dts fs else f ∷ fs

-- The search and the cut together: `drop` from the index found, counted from `i`.
cut : List Fragment → ℕ → Option ℕ → List Fragment
cut fs i none = []
cut fs i (some k) = drop (k - i) fs

find_from-le : (x : ℤ) (fs : List Fragment) (i k : ℕ) → find_from x fs i ≡ some k → i ≤ k
unfolding find_from
find_from-le x [] i k e = cc
find_from-le x (f ∷ fs) i k e = ground (arith, find_from-le x fs (i + 1) k)

cut-find_from : (x : ℤ) (fs : List Fragment) (i : ℕ) → cut fs i (find_from x fs i) ≡ since x fs
unfolding find_from since cut
cut-find_from x [] i = refl
cut-find_from x (f ∷ fs) i = elim (Bool-cases (ltb_ℤ f.dts x)) [
  | inr here ↦ let e : i - i ≡ 0 = omega arith in rw (here) (rw e)
  | inl before ↦
      rw before
        (shift (find_from x fs (i + 1)) (find_from-le x fs (i + 1)) ∙ cut-find_from x fs (i + 1))
]
  where
    shift :
        (o : Option ℕ) → ((k : ℕ) → o ≡ some k → i + 1 ≤ k) → cut (f ∷ fs) i o ≡ cut fs (i + 1) o
    shift none h = refl
    shift (some k) h = let e : k - i ≡ suc (k - (i + 1)) = omega (arith, h k refl) in rw e

-- `ReadFrom` returns the fragments from the first one on whose DTS is not before `from_dts`.
pub read_from-since : (rb : RingBuffer) (x : ℤ) → read_from rb x ≡ since x rb.fragments
unfolding read_from
read_from-since rb x = whole (find_from x rb.fragments 0) ∙ cut-find_from x rb.fragments 0
  where
    whole :
        (o : Option ℕ)
        → (elim o [ none ↦ [] | some k ↦ drop k rb.fragments ]) ≡ cut rb.fragments 0 o
    whole none = unfold cut in refl
    whole (some k) = unfold cut in (let e : k - 0 ≡ k = omega arith in rw e)

-- All fragments whose DTS is not before `x`.
pub keep : ℤ → List Fragment → List Fragment
keep x [] = []
keep x (f ∷ fs) = let rest = keep x fs in if ltb_ℤ f.dts x then rest else f ∷ rest

-- Fragments in decode order.
abbrev pub InOrder : List Fragment → Type 0
InOrder [] = Unit
InOrder (f ∷ fs) = All (λ g. ltb_ℤ g.dts f.dts ≡ false) fs × InOrder fs

keep-All :
    (x : ℤ) (f : Fragment) (fs : List Fragment)
    → ltb_ℤ f.dts x ≡ false
    → All (λ g. ltb_ℤ g.dts f.dts ≡ false) fs
    → keep x fs ≡ fs
unfolding keep
keep-All x f [] h a = refl
keep-All x f (g ∷ gs) h a =
    let later : ltb_ℤ g.dts x ≡ false = ground (arith, a.0) in rw (later, keep-All x f gs h a.1)

since-eq-keep : (x : ℤ) (fs : List Fragment) → InOrder fs → since x fs ≡ keep x fs
unfolding since keep
since-eq-keep x [] o = refl
since-eq-keep x (f ∷ fs) o = elim (Bool-cases (ltb_ℤ f.dts x)) [
  | inl before ↦ rw before (since-eq-keep x fs o.1)
  | inr here ↦ rw (here, keep-All x f fs here o.0)
]

-- On fragments in decode order `ReadFrom` returns all fragments with DTS >= fromDTS and no other, in
-- order.
pub read_from-InOrder :
    (rb : RingBuffer) (x : ℤ) → InOrder rb.fragments → read_from rb x ≡ keep x rb.fragments
read_from-InOrder rb x o = read_from-since rb x ∙ since-eq-keep x rb.fragments o

-- What one `Push` does to the fragments.
pub record Pushed (rb rb' : RingBuffer) (f : Fragment) (now : ℕ) : Type 0 where
  pub gone : ℕ
  pub window : rb'.fragments ≡ drop gone (rb.fragments ++ (f ∷ []))
  pub expired : All (λ g. is_expired now rb.max_age g ≡ true) (take gone (rb.fragments ++ (f ∷ [])))
  pub fresh : HeadFails (is_expired now rb.max_age) rb'.fragments
  pub wakes : rb'.notify ≡ rb.notify + 1

-- `Push` appends the fragment, drops a run of expired fragments from the front and no other, leaves a
-- first fragment that is not expired, and wakes the waiters.
pub push-Pushed : (rb : RingBuffer) (f : Fragment) (now : ℕ) → Pushed rb (push rb f now) f now
unfolding push
push-Pushed rb f now =
    let test = is_expired now rb.max_age in
    let longer = rb.fragments ++ (f ∷ []) in
    let (all, head) = count_while_stops test longer in
    record {
      gone = count_while test longer;
      window = same (count_while test longer);
      expired = all;
      fresh = subst (HeadFails test) (sym (same (count_while test longer))) head;
      wakes = refl;
    }
  where
    same :
        (i : ℕ)
        → (if ltb 0 i then drop i (rb.fragments ++ (f ∷ [])) else rb.fragments ++ (f ∷ []))
          ≡ drop i (rb.fragments ++ (f ∷ []))
    same zero = ground arith
    same (suc i) = ground arith
