-- ===== src/Pio/Vec/Cut.antt =====
-- A vector and the concatenation of its slices.
use vrtc_sdk.Prelude.{
  ℕ, zero, suc, ◌-◌, ◌≤◌, ◌<◌, min, ◌≡◌, refl, ap, sym, ◌∙◌, arith, ◌⊎◌, inl, inr, true, false,
  Option, some, ◌>>=◌,
}
use vrtc_sdk.Prelude.{List, [], ◌∷◌, ◌++◌, append-nil, length, take, drop, length-drop, ltb, ◌==◌}
use vrtc_sdk.Prelude.Int.{pos}
use vrtc_sdk.Pio.Vec.{
  vec_len, less, skip_loop, is_left, piece_size, cut_loop, start_of, end_of, vec_slice,
}

-- The bytes of a vector.
abbrev pub flat : List (List ℕ) → List ℕ
flat [] = []
flat (v ∷ vs) = v ++ flat vs

-- `some` pieces that hold the bytes `xs`.
abbrev Yields : Option (List (List ℕ)) → List ℕ → Type 0
Yields r xs = (ps : List (List ℕ)) × (r ≡ some ps) × (flat ps ≡ xs)

take-short : (n : ℕ) (w x : List ℕ) → n ≤ length w → take n (w ++ x) ≡ take n w
take-short zero w x h = refl
take-short (suc n) [] x h = absurd (omega arith)
take-short (suc n) (b ∷ w) x h = ap (λ l. b ∷ l) (take-short n w x (omega arith))

take-long : (n : ℕ) (w x : List ℕ) → length w ≤ n → take n (w ++ x) ≡ w ++ take (n - length w) x
take-long n [] x h = ap (λ k. take k x) (omega arith)
take-long zero (b ∷ w) x h = absurd (omega arith)
take-long (suc n) (b ∷ w) x h =
    let e : suc n - suc (length w) ≡ n - length w = omega arith in
    ap (λ l. b ∷ l) (take-long n w x (omega arith) ∙ ap (λ k. w ++ take k x) (sym e))

take-whole : (n : ℕ) (w : List ℕ) → length w ≤ n → take n w ≡ w
take-whole zero [] h = refl
take-whole (suc n) [] h = refl
take-whole zero (b ∷ w) h = absurd (omega arith)
take-whole (suc n) (b ∷ w) h = ap (λ l. b ∷ l) (take-whole n w (omega arith))

drop-short : (n : ℕ) (w x : List ℕ) → n ≤ length w → drop n (w ++ x) ≡ drop n w ++ x
drop-short zero w x h = refl
drop-short (suc n) [] x h = absurd (omega arith)
drop-short (suc n) (b ∷ w) x h = drop-short n w x (omega arith)

drop-long : (n : ℕ) (w x : List ℕ) → length w ≤ n → drop n (w ++ x) ≡ drop (n - length w) x
drop-long n [] x h = ap (λ k. drop k x) (omega arith)
drop-long zero (b ∷ w) x h = absurd (omega arith)
drop-long (suc n) (b ∷ w) x h =
    let e : suc n - suc (length w) ≡ n - length w = omega arith in
    drop-long n w x (omega arith) ∙ ap (λ k. drop k x) (sym e)

split_at : (n m : ℕ) → (n ≡ 0) ⊎ ((0 < n) × (n < m)) ⊎ ((0 < n) × (m ≤ n))
split_at n m = omega arith

-- One slice of the cut, from the offset `off`, when the rest can be cut.
cut_first :
    (v : List ℕ) (vs : List (List ℕ)) (off e : ℕ)
    → off ≤ length v
    → (length v - off ≤ e
        → Yields
            (cut_loop vs 0 (some (e - (length v - off))))
            (take (e - (length v - off)) (flat vs)))
    → Yields (cut_loop (v ∷ vs) off (some e)) (take e (drop off v ++ flat vs))
unfolding cut_loop is_left piece_size less
cut_first v vs off e h rest =
    let size : length (drop off v) ≡ length v - off = length-drop off v in
    elim (split_at e (length v - off)) [
      | inl z ↦ rw z ([], refl, refl)
      | inr (inl (some_left, inside)) ↦
          let read : ltb e (length v - off) ≡ true = ground arith in
          let part : ((length v - off) - e == 0) ≡ false = ground arith in
          let on : ltb 0 e ≡ true = ground arith in
          (
            take e (drop off v) ∷ [],
            rw (on, read, part) refl,
            append-nil (take e (drop off v))
                ∙ sym (take-short e (drop off v) (flat vs) (omega arith)),
          )
      | inr (inr (some_left, beyond)) ↦
          let read : ltb e (length v - off) ≡ false = ground arith in
          let used : ((length v - off) - (length v - off) == 0) ≡ true = ground arith in
          let on : ltb 0 e ≡ true = ground arith in
          let (ps, cut, bytes) = rest beyond in
          (
            take (length v - off) (drop off v) ∷ ps,
            rw (on, read, used, cut) refl,
            rw (take-whole (length v - off) (drop off v) (omega arith), bytes)
                (ap (λ k. drop off v ++ take (e - k) (flat vs)) (sym size)
                  ∙ sym (take-long e (drop off v) (flat vs) (omega arith))),
          )
    ]

cut_loop-nil : cut_loop [] 0 (some 0) ≡ some []
unfolding cut_loop
cut_loop-nil = refl

cut_whole :
    (vs : List (List ℕ)) (e : ℕ)
    → e ≤ vec_len vs
    → Yields (cut_loop vs 0 (some e)) (take e (flat vs))
unfolding vec_len
cut_whole [] e h = let z : e ≡ 0 = omega arith in rw z ([], cut_loop-nil, refl)
cut_whole (v ∷ vs) e h =
    cut_first v vs 0 e (omega arith) (λ long. cut_whole vs (e - (length v - 0)) (omega arith))

-- Both loops, from any start.
skip_and_cut :
    (vs : List (List ℕ)) (s e : ℕ)
    → s ≤ e
    → e ≤ vec_len vs
    → Yields
        (skip_loop vs s (some e) >>= λ (rest, off, left). cut_loop rest off left)
        (take (e - s) (drop s (flat vs)))
unfolding vec_len skip_loop less
skip_and_cut [] s e h h' =
    let z : s ≡ 0 = omega arith in
    let z' : e ≡ 0 = omega arith in rw (z, z') ([], cut_loop-nil, refl)
skip_and_cut (v ∷ vs) s e h h' = elim (split_at s (length v)) [
  | inl z ↦
      let whole : e - 0 ≡ e = omega arith in
      rw (z, whole)
        (cut_first v vs 0 e (omega arith) (λ long. cut_whole vs (e - (length v - 0)) (omega arith)))
  | inr (inl (some_skip, inside)) ↦
      let on : (s == 0) ≡ false = ground arith in
      let read : min (length v) s ≡ s = omega arith in
      let part : (length v - s == 0) ≡ false = ground arith in
      rw (on, read, part, drop-short s v (flat vs) (omega arith))
        (cut_first v vs s (e - s) (omega arith)
          (λ long. cut_whole vs (e - s - (length v - s)) (omega arith)))
  | inr (inr (some_skip, beyond)) ↦
      let on : (s == 0) ≡ false = ground arith in
      let read : min (length v) s ≡ length v = omega arith in
      let used : (length v - length v == 0) ≡ true = ground arith in
      let same : e - s ≡ (e - length v) - (s - length v) = omega arith in
      rw (on, read, used, same, drop-long s v (flat vs) beyond)
        (skip_and_cut vs (s - length v) (e - length v) (omega arith) (omega arith))
]

-- `VecSlice` at bounds in order and within the vector's length does not panic, and its pieces together
-- are the bytes from the start to the end of the slices put together.
pub vec_slice-flat :
    (vec : List (List ℕ)) (s e : ℕ)
    → s ≤ e
    → e ≤ vec_len vec
    → (ps : List (List ℕ)) × (vec_slice vec (pos s) (pos e) ≡ some ps)
      × (flat ps ≡ take (e - s) (drop s (flat vec)))
unfolding vec_slice start_of end_of
vec_slice-flat vec s e h h' =
    let ordered : ltb e s ≡ false = ground arith in
    let (ps, cut, bytes) = skip_and_cut vec s e h h' in (ps, rw ordered cut, bytes)
