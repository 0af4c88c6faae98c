-- ===== src/Av/AudioFrame/Concat.antt =====
-- Audio frames that are concatenated and sliced.
use vrtc_sdk.Prelude.{
  ℕ, ◌+◌, ◌-◌, ◌*◌, ◌≡◌, refl, ap, sym, ◌∙◌, arith, false, some, List, [], ◌∷◌, ◌++◌,
}
use vrtc_sdk.Prelude.{
  length, take, drop, ltb, length-append, take-length_append, drop-length_append,
}
use vrtc_sdk.Av.AudioFrame.{
  AudioFrame, bytes_per_sample, slice_planes, slice_frame, concat_planes, concat_frames,
}

-- Planes with one another's number, each of `n` bytes on the left and of `m` bytes on the right.
abbrev pub Match : ℕ → ℕ → List (List ℕ) → List (List ℕ) → Type 0
Match n m [] [] = Unit
Match n m [] (q ∷ qs) = ⊥
Match n m (p ∷ ps) [] = ⊥
Match n m (p ∷ ps) (q ∷ qs) = (length p ≡ n) × (length q ≡ m) × Match n m ps qs

take-all : (xs : List ℕ) → take (length xs) xs ≡ xs
take-all [] = refl
take-all (x ∷ xs) = ap (λ l. x ∷ l) (take-all xs)

abbrev joined : List (List ℕ) → List (List ℕ) → List (List ℕ)
joined [] qs = []
joined (p ∷ ps) [] = []
joined (p ∷ ps) (q ∷ qs) = (p ++ q) ∷ joined ps qs

concat_planes-joined :
    (n m : ℕ) (ps qs : List (List ℕ)) → Match n m ps qs → concat_planes ps qs ≡ some (joined ps qs)
unfolding concat_planes
concat_planes-joined n m [] qs h = refl
concat_planes-joined n m (p ∷ ps) [] h = absurd h
concat_planes-joined n m (p ∷ ps) (q ∷ qs) (hp, hq, h) = rw (concat_planes-joined n m ps qs h) refl

first_planes :
    (n m : ℕ) (ps qs : List (List ℕ)) → Match n m ps qs → slice_planes 0 n (joined ps qs) ≡ some ps
unfolding slice_planes
first_planes n m [] qs h = refl
first_planes n m (p ∷ ps) [] h = absurd h
first_planes n m (p ∷ ps) (q ∷ qs) (hp, hq, h) =
    let long : ltb (length (p ++ q)) n ≡ false = ground (arith, length-append p q) in
    let cut : take (n - 0) (p ++ q) ≡ p =
      ap (λ k. take k (p ++ q)) (omega (arith, hp)) ∙ take-length_append p q in
    rw (first_planes n m ps qs h, long, cut) refl

second_planes :
    (n m : ℕ) (ps qs : List (List ℕ))
    → Match n m ps qs
    → slice_planes n (n + m) (joined ps qs) ≡ some qs
unfolding slice_planes
second_planes n m [] [] h = refl
second_planes n m [] (q ∷ qs) h = absurd h
second_planes n m (p ∷ ps) [] h = absurd h
second_planes n m (p ∷ ps) (q ∷ qs) (hp, hq, h) =
    let long : ltb (length (p ++ q)) (n + m) ≡ false = ground (arith, length-append p q) in
    let behind : drop n (p ++ q) ≡ q =
      ap (λ k. drop k (p ++ q)) (sym hp) ∙ drop-length_append p q in
    let cut : take (n + m - n) q ≡ q = ap (λ k. take k q) (omega (arith, hq)) ∙ take-all q in
    rw (second_planes n m ps qs h, long, behind, cut) refl

-- Two frames with the same number of planes, each plane as long as the frame's sample count says, can be
-- concatenated, and slicing the result at the first frame's sample count gives back the first
-- frame, and the second one's samples with the first one's format.
pub concat_frames-slice_frame :
    (s t : AudioFrame)
    → let size = bytes_per_sample s.sample_format in
      Match (s.sample_count * size) (t.sample_count * size) s.planes t.planes
      → (c : AudioFrame) × (concat_frames s t ≡ some c)
        × (slice_frame c 0 s.sample_count ≡ some s)
        × (slice_frame c s.sample_count (s.sample_count + t.sample_count)
            ≡ some (record s { planes = t.planes; sample_count = t.sample_count }))
unfolding slice_frame
concat_frames-slice_frame s t h = (whole, made, front, back)
  where
    size : ℕ
    size = bytes_per_sample s.sample_format

    whole : AudioFrame
    whole = record s {
      planes = joined s.planes t.planes;
      sample_count = s.sample_count + t.sample_count;
    }

    made : concat_frames s t ≡ some whole
    made = unfold concat_frames in rw (concat_planes-joined _ _ s.planes t.planes h) refl

    in_range : ltb (s.sample_count + t.sample_count) s.sample_count ≡ false
    in_range = ground arith

    at_end : ltb (s.sample_count + t.sample_count) (s.sample_count + t.sample_count) ≡ false
    at_end = ground arith

    not_before : ltb s.sample_count 0 ≡ false
    not_before = ground arith

    no_bytes : 0 * size ≡ 0
    no_bytes = omega arith

    whole_count : s.sample_count - 0 ≡ s.sample_count
    whole_count = omega arith

    front : slice_frame whole 0 s.sample_count ≡ some s
    front =
        rw (in_range, not_before, no_bytes, whole_count, first_planes _ _ s.planes t.planes h) refl

    distributes :
        (s.sample_count + t.sample_count) * size ≡ s.sample_count * size + t.sample_count * size
    distributes = grind arith

    rest_count : s.sample_count + t.sample_count - s.sample_count ≡ t.sample_count
    rest_count = omega arith

    back :
        slice_frame whole s.sample_count (s.sample_count + t.sample_count)
        ≡ some (record s { planes = t.planes; sample_count = t.sample_count })
    back =
        rw (at_end, in_range, distributes, second_planes _ _ s.planes t.planes h, rest_count) refl
