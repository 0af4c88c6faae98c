-- ===== src/Fmp4/Track/Bodies.antt =====
-- The samples' data of one stream, through the changes of the tracks.
use vrtc_sdk.Prelude.{
  ℕ, suc, ◌≡◌, refl, ◌⊎◌, sym, ap, ◌∙◌, arith, inl, inr, true, false, none, some, List, [], ◌∷◌,
  ◌++◌, append-nil, append_assoc,
}
use vrtc_sdk.Prelude.{ltb, ◌&&◌, ◌==◌, if◌then◌else◌, length, Option-cases, Bool-cases, lt→ltb}
use vrtc_sdk.Prelude.Int.{ℤ, ltb_ℤ}
use vrtc_sdk.Av.{Packet}
use vrtc_sdk.Fmp4.Track.{
  Sample, Track, find_track, update_track, patch_last, patch_tracks, active, clear_tracks,
  back_fill, append_sample, make_sample, has_any_samples, dts_to_timescale,
}

unfoldable pub data_of : List Sample → List (List ℕ)
data_of [] = []
data_of (s ∷ r) = s.body ∷ data_of r

unfoldable pub own : ℕ → Track → List (List ℕ)
unfolding data_of
own i t = if t.stream_idx == i then data_of t.samples else []

-- The data of the samples of the stream `i`.
unfoldable pub bodies : ℕ → List Track → List (List ℕ)
unfolding own
bodies i [] = []
bodies i (t ∷ ts) = own i t ++ bodies i ts

data_of-append : (xs ys : List Sample) → data_of (xs ++ ys) ≡ data_of xs ++ data_of ys
unfolding data_of
data_of-append [] ys = refl
data_of-append (x ∷ xs) ys = rw (data_of-append xs ys)

data_of-patch_last : (xs : List Sample) → data_of (patch_last xs) ≡ data_of xs
unfolding data_of patch_last
data_of-patch_last [] = refl
data_of-patch_last (s ∷ []) = refl
data_of-patch_last (s ∷ t ∷ []) = elim (Bool-cases (t.duration == 0)) [
  | inl h ↦ rw h
  | inr h ↦ rw h
]
data_of-patch_last (s ∷ t ∷ u ∷ r) = rw (data_of-patch_last (t ∷ u ∷ r))

data_of-back_fill : (d : ℤ) (xs : List Sample) → data_of (back_fill d xs) ≡ data_of xs
unfolding data_of back_fill
data_of-back_fill d [] = refl
data_of-back_fill d (s ∷ []) = elim (Bool-cases (s.duration == 0 && ltb_ℤ s.dts d)) [
  | inl h ↦ rw h
  | inr h ↦ rw h
]
data_of-back_fill d (s ∷ t ∷ r) = rw (data_of-back_fill d (t ∷ r))

own-nil : (i : ℕ) (t : Track) → t.samples ≡ [] → own i t ≡ []
unfolding own data_of
own-nil i t e = rw e (ground arith)

own_other : (i : ℕ) (t : Track) → (t.stream_idx == i) ≡ false → own i t ≡ []
unfolding own
own_other i t e = rw e

own-patch_last : (i : ℕ) (t : Track) → own i (record t { samples = patch_last t.samples }) ≡ own i t
unfolding own
own-patch_last i t = rw (data_of-patch_last t.samples)

own_here : (i : ℕ) (t : Track) → (t.stream_idx == i) ≡ true → own i t ≡ data_of t.samples
unfolding own
own_here i t e = rw e

data_of-append_sample :
    (p : Packet) (t : Track)
    → data_of (append_sample p t).samples ≡ data_of t.samples ++ (p.payload ∷ [])
unfolding append_sample make_sample data_of
data_of-append_sample p t =
    let d = dts_to_timescale p.dts t.timescale in
    data_of-append (back_fill d t.samples) (make_sample p t ∷ [])
    ∙ ap (λ l. l ++ (p.payload ∷ [])) (data_of-back_fill d t.samples)

own-append_sample :
    (i : ℕ) (p : Packet) (t : Track)
    → (t.stream_idx == p.idx) ≡ true
    → own i (append_sample p t) ≡ own i t ++ (if p.idx == i then p.payload ∷ [] else [])
unfolding append_sample
own-append_sample i p t h = elim (Bool-cases (p.idx == i)) [
  | inl e ↦
      let k : (t.stream_idx == i) ≡ true = ground arith in
      rw (own_here i (append_sample p t) k, own_here i t k, e) (data_of-append_sample p t)
  | inr e ↦
      let k : (t.stream_idx == i) ≡ false = ground arith in
      rw (own_other i (append_sample p t) k, own_other i t k, e) refl
]

pub bodies-patch_tracks : (i : ℕ) (ts : List Track) → bodies i (patch_tracks ts) ≡ bodies i ts
unfolding bodies patch_tracks
bodies-patch_tracks i [] = refl
bodies-patch_tracks i (t ∷ ts) = rw (own-patch_last i t, bodies-patch_tracks i ts)

idle_cases : (t : Track) → (t.samples ≡ []) ⊎ (ltb 0 (length t.samples) ≡ true)
idle_cases t = go t.samples refl
  where
    go : (xs : List Sample) → t.samples ≡ xs → (t.samples ≡ []) ⊎ (ltb 0 (length t.samples) ≡ true)
    go [] e = inl e
    go (x ∷ xs) e = inr (rw e (lt→ltb 0 (suc (length xs)) (omega arith)))

pub bodies-active : (i : ℕ) (ts : List Track) → bodies i (active ts) ≡ bodies i ts
unfolding bodies active
bodies-active i [] = refl
bodies-active i (t ∷ ts) = elim (idle_cases t) [
  | inl e ↦ rw (own-nil i t e, e) (bodies-active i ts)
  | inr e ↦ rw (e, bodies-active i ts)
]

pub bodies-clear_tracks : (i : ℕ) (ts : List Track) → bodies i (clear_tracks ts) ≡ []
unfolding bodies clear_tracks own data_of
bodies-clear_tracks i [] = refl
bodies-clear_tracks i (t ∷ ts) = ground (arith, bodies-clear_tracks i ts)

pub bodies_idle : (i : ℕ) (ts : List Track) → has_any_samples ts ≡ false → bodies i ts ≡ []
unfolding bodies has_any_samples
bodies_idle i [] h = refl
bodies_idle i (t ∷ ts) h = elim (idle_cases t) [
  | inl e ↦ rw (own-nil i t e) (bodies_idle i ts (ground arith))
  | inr e ↦ absurd (ground arith)
]

found_here :
    (i : ℕ) (t : Track) (ts : List Track)
    → find_track i ts ≡ none
    → (t.stream_idx == i) ≡ true
    → find_track i (t ∷ ts) ≡ some t
unfolding find_track
found_here i t ts e k = rw (e, k)

not_found :
    (i : ℕ) (t : Track) (ts : List Track)
    → find_track i ts ≡ none
    → (t.stream_idx == i) ≡ false
    → find_track i (t ∷ ts) ≡ none
unfolding find_track
not_found i t ts e k = rw (e, k)

found_later :
    (i : ℕ) (t u : Track) (ts : List Track)
    → find_track i ts ≡ some u
    → find_track i (t ∷ ts) ≡ some u
unfolding find_track
found_later i t u ts e = rw e

pub bodies-none : (i : ℕ) (ts : List Track) → find_track i ts ≡ none → bodies i ts ≡ []
unfolding bodies
bodies-none i [] h = refl
bodies-none i (t ∷ ts) h = elim (Option-cases (find_track i ts)) [
  | inl e ↦ elim (Bool-cases (t.stream_idx == i)) [
    | inl k ↦ absurd (ground (arith, found_here i t ts e k))
    | inr k ↦ rw (own_other i t k) (bodies-none i ts e)
  ]
  | inr e ↦ absurd (ground (arith, found_later i t e.0 ts e.1))
]

not_in_nil : (i : ℕ) (u : Track) → find_track i [] ≡ some u → ⊥
unfolding find_track
not_in_nil i u h = cc

pub update_here :
    (i : ℕ) (f : Track → Track) (t : Track) (ts : List Track)
    → find_track i ts ≡ none
    → (t.stream_idx == i) ≡ true
    → update_track i f (t ∷ ts) ≡ f t ∷ ts
unfolding update_track
update_here i f t ts e k = rw (e, update_track, k)

pub update-nil : (i : ℕ) (f : Track → Track) → update_track i f [] ≡ []
unfolding update_track
update-nil i f = refl

pub update_nowhere :
    (i : ℕ) (f : Track → Track) (t : Track) (ts : List Track)
    → find_track i ts ≡ none
    → (t.stream_idx == i) ≡ false
    → update_track i f (t ∷ ts) ≡ t ∷ ts
unfolding update_track
update_nowhere i f t ts e k = rw (e, update_track, k)

pub update_later :
    (i : ℕ) (f : Track → Track) (t u : Track) (ts : List Track)
    → find_track i ts ≡ some u
    → update_track i f (t ∷ ts) ≡ t ∷ update_track i f ts
unfolding update_track
update_later i f t u ts e = rw (e, update_track)

-- Where no later track has the stream, what is added comes last.
gain_last :
    (i j : ℕ) (x : List ℕ) (ts : List Track)
    → find_track j ts ≡ none
    → (if j == i then x ∷ [] else []) ++ bodies i ts
      ≡ bodies i ts ++ (if j == i then x ∷ [] else [])
gain_last i j x ts e = elim (Bool-cases (j == i)) [
  | inl k ↦
      let same : j ≡ i = ground arith in
      let none_of : bodies i ts ≡ [] = bodies-none i ts (ground arith) in rw (k, none_of) refl
  | inr k ↦ rw k (sym (append-nil (bodies i ts)))
]

pub bodies-append_sample :
    (i : ℕ) (p : Packet) (ts : List Track) (u : Track)
    → find_track p.idx ts ≡ some u
    → bodies i (update_track p.idx (append_sample p) ts)
      ≡ bodies i ts ++ (if p.idx == i then p.payload ∷ [] else [])
unfolding bodies update_track
bodies-append_sample i p [] u h = absurd (not_in_nil p.idx u h)
bodies-append_sample i p (t ∷ ts) u h =
    let g : List (List ℕ) = if p.idx == i then p.payload ∷ [] else [] in
    elim (Option-cases (find_track p.idx ts)) [
      | inl e ↦ elim (Bool-cases (t.stream_idx == p.idx)) [
        | inl k ↦
            rw (update_here p.idx (append_sample p) t ts e k, own-append_sample i p t k)
              (append_assoc (own i t) g (bodies i ts)
                ∙ ap (λ l. own i t ++ l) (gain_last i p.idx p.payload ts e)
                ∙ sym (append_assoc (own i t) (bodies i ts) g))
        | inr k ↦ absurd (ground (arith, not_found p.idx t ts e k))
      ]
      | inr e ↦
          rw
            (update_later p.idx (append_sample p) t e.0 ts e.1, bodies-append_sample i p ts e.0 e.1)
            (sym (append_assoc (own i t) (bodies i ts) g))
    ]
