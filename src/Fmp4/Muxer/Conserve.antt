-- ===== src/Fmp4/Muxer/Conserve.antt =====
-- What a run of the muxer writes of each stream.
use vrtc_sdk.Prelude.{
  ℕ, ◌≡◌, refl, sym, ap, ◌∙◌, inl, inr, Bool, true, false, not, ◌&&◌, Option, none, some, List, [],
  ◌∷◌, ◌++◌, append-nil, append_assoc,
}
use vrtc_sdk.Prelude.{◌==◌, if◌then◌else◌, Option-cases, Bool-cases}
use vrtc_sdk.Prelude.Int.{ℤ, add64, sub64}
use vrtc_sdk.Av.{Packet}
use vrtc_sdk.Fmp4.Track.{
  Track, find_track, update_track, patch_tracks, active, clear_tracks, append_sample,
  has_any_samples, has_video_tracks,
}
use vrtc_sdk.Fmp4.Track.Bodies.{
  bodies, bodies-patch_tracks, bodies-active, bodies-clear_tracks, bodies_idle,
  bodies-append_sample,
}
use vrtc_sdk.Fmp4.Track.Video.{
  video_of, video_of-find_track, video_of-patch_tracks, video_of-clear_tracks,
  video_of-append_sample,
}
use vrtc_sdk.Fmp4.Muxer.{
  Error, Muxer, Output, init_segment, fragment, new_muxer, flush_fragment, note_gap, gap_since,
  flush_at_key, flush_after, write_normal, write_sample, write_trailer,
}

-- The data of the stream `i` in the fragments.
pub emitted : ℕ → List Output → List (List ℕ)
emitted i [] = []
emitted i (init_segment ts ∷ r) = emitted i r
emitted i (fragment seq id ts ∷ r) = bodies i ts ++ emitted i r

-- With what is pending.
pub total : ℕ → Muxer → List (List ℕ)
unfolding emitted
total i m = emitted i m.output ++ bodies i m.tracks

pub total_waiting :
    (i : ℕ) (m : Muxer) (b : Bool) → total i (record m { waiting_for_keyframe = b }) ≡ total i m
unfolding total
total_waiting i m b = refl

pub total_started :
    (i : ℕ) (ts : List Track)
    → total i (record new_muxer {
      tracks = ts;
      written = true;
      waiting_for_keyframe = has_video_tracks ts;
      output = init_segment ts ∷ [];
    })
      ≡ bodies i ts
unfolding total emitted new_muxer
total_started i ts = refl

pub total_written : (i : ℕ) (m : Muxer) → bodies i m.tracks ≡ [] → emitted i m.output ≡ total i m
unfolding total
total_written i m h = rw h (sym (append-nil (emitted i m.output)))

-- A change that adds `gain` to the stream `i`, and to no flag of the muxer.
pub record Adds (i : ℕ) (gain : List (List ℕ)) (m m' : Muxer) : Type 0 where
  pub sum : total i m' ≡ total i m ++ gain
  pub kinds : (j : ℕ) → video_of m'.tracks j ≡ video_of m.tracks j
  pub written : m'.written ≡ m.written
  pub closed : m'.closed ≡ m.closed
  pub waiting : m'.waiting_for_keyframe ≡ m.waiting_for_keyframe

Adds-refl : (i : ℕ) (m : Muxer) → Adds i [] m m
Adds-refl i m = record {
  sum = sym (append-nil _);
  kinds = λ j. refl;
  written = refl;
  closed = refl;
  waiting = refl;
}

pub emitted-append :
    (i : ℕ) (xs ys : List Output) → emitted i (xs ++ ys) ≡ emitted i xs ++ emitted i ys
unfolding emitted
emitted-append i [] ys = refl
emitted-append i (init_segment ts ∷ r) ys = emitted-append i r ys
emitted-append i (fragment seq id ts ∷ r) ys =
    rw (emitted-append i r ys) (sym (append_assoc (bodies i ts) (emitted i r) (emitted i ys)))

flushed_sum :
    (i : ℕ) (m : Muxer) (seq id : ℕ)
    → emitted i (m.output ++ (fragment seq id (active (patch_tracks m.tracks)) ∷ []))
        ++ bodies i (clear_tracks (patch_tracks m.tracks))
      ≡ total i m ++ []
unfolding total emitted
flushed_sum i m seq id =
    let ts = patch_tracks m.tracks in
    rw
      (
        emitted-append i m.output (fragment seq id (active ts) ∷ []),
        bodies-clear_tracks i ts,
        bodies-active i ts,
        bodies-patch_tracks i m.tracks,
      )
      (ap (λ l. emitted i m.output ++ l ++ []) (append-nil (bodies i m.tracks)))

pub flush_fragment-Adds : (i : ℕ) (m : Muxer) (disk : Bool) → Adds i [] m (flush_fragment m disk).1
unfolding flush_fragment total
flush_fragment-Adds i m disk = elim (Bool-cases (has_any_samples m.tracks)) [
  | inr e ↦ rw e (record {
    sum = sym (append-nil _);
    kinds = λ j. refl;
    written = refl;
    closed = refl;
    waiting = refl;
  })
  | inl e ↦ elim (Bool-cases disk) [
    | inl d ↦
        rw (e, d)
          (record {
            sum = flushed_sum i m _ _;
            kinds = λ j.
                video_of-clear_tracks (patch_tracks m.tracks) j ∙ video_of-patch_tracks m.tracks j;
            written = refl;
            closed = refl;
            waiting = refl;
          })
    | inr d ↦
        rw (e, d)
          (record {
            sum =
                ap (λ l. emitted i m.output ++ l) (bodies-patch_tracks i m.tracks)
                ∙ sym (append-nil _);
            kinds = λ j. video_of-patch_tracks m.tracks j;
            written = refl;
            closed = refl;
            waiting = refl;
          })
  ]
]

module _ {i : ℕ} {g : List (List ℕ)} {m : Muxer} where
  Adds-if : {x y : Muxer} (c : Bool) → Adds i g m x → Adds i g m y → Adds i g m (if c then x else y)
  Adds-if true a b = a
  Adds-if false a b = b

  Adds-if_1 :
      (x y : Option Error × Muxer) (c : Bool)
      → Adds i g m x.1
      → Adds i g m y.1
      → Adds i g m (if c then x else y).1
  Adds-if_1 x y true a b = a
  Adds-if_1 x y false a b = b

gap_since-Adds : (i : ℕ) (m : Muxer) (d : ℤ) (o : Option ℤ) → Adds i [] m (gap_since m d o)
unfolding gap_since total
gap_since-Adds i m d none = Adds-refl i m
gap_since-Adds i m d (some last) =
    Adds-if _
      (record {
        sum = sym (append-nil _);
        kinds = λ j. refl;
        written = refl;
        closed = refl;
        waiting = refl;
      })
      (Adds-refl i m)

note_gap-Adds : (i : ℕ) (m : Muxer) (d : ℤ) → Adds i [] m (note_gap m d)
unfolding note_gap
note_gap-Adds i m d = gap_since-Adds i m d m.last_video_dts

-- The flag of the first fragment does not matter.
Adds-flushed :
    (i : ℕ) (g : List (List ℕ)) (m n : Muxer)
    → Adds i g (record m { first_fragment_flushed = true }) n
    → Adds i g m n
unfolding total
Adds-flushed i g m n a = record {
  sum = a.sum;
  kinds = a.kinds;
  written = a.written;
  closed = a.closed;
  waiting = a.waiting;
}

Adds-trans :
    (i : ℕ) (g h : List (List ℕ)) (m n o : Muxer)
    → Adds i g m n
    → Adds i h n o
    → Adds i (g ++ h) m o
Adds-trans i g h m n o a b = record {
  sum = b.sum ∙ ap (λ l. l ++ h) a.sum ∙ append_assoc (total i m) g h;
  kinds = λ j. b.kinds j ∙ a.kinds j;
  written = b.written ∙ a.written;
  closed = b.closed ∙ a.closed;
  waiting = b.waiting ∙ a.waiting;
}

Adds-after :
    {i : ℕ} {g : List (List ℕ)} {m n o : Muxer} → Adds i g m n → Adds i [] n o → Adds i g m o
Adds-after a b = record {
  sum = b.sum ∙ append-nil _ ∙ a.sum;
  kinds = λ j. b.kinds j ∙ a.kinds j;
  written = b.written ∙ a.written;
  closed = b.closed ∙ a.closed;
  waiting = b.waiting ∙ a.waiting;
}

flush_at_key-Adds :
    (i : ℕ) (m : Muxer) (ts : Track) (p : Packet) (disk : Bool)
    → Adds i [] m (flush_at_key m ts p disk).1
unfolding flush_at_key
flush_at_key-Adds i m ts p disk =
    Adds-if_1 _ _ _ (go (flush_fragment m disk) (flush_fragment-Adds i m disk)) (Adds-refl i m)
  where
    go :
        (r : Option Error × Muxer)
        → Adds i [] m r.1
        → Adds i [] m
            (elim r.0 as (λ _. Option Error × Muxer) [
              | some x ↦ (some x, r.1)
              | none ↦ (none, note_gap (record r.1 { first_fragment_flushed = true }) p.dts)
            ]).1
    go (some x, m') a = a
    go (none, m') a = Adds-trans i [] [] m m' _ a (
        Adds-flushed i [] m' _
          (note_gap-Adds i (record m' { first_fragment_flushed = true }) p.dts))

flush_after-Adds :
    (i : ℕ) (m : Muxer) (ts : Track) (p : Packet) (disk : Bool)
    → Adds i [] m (flush_after m ts p disk).1
unfolding flush_after
flush_after-Adds i m ts p disk =
    let eager = flush_fragment (record m { first_fragment_flushed = true }) disk in
    let early =
      not m.first_fragment_flushed && ts.has_video && not p.key_frame && has_any_samples m.tracks in
    Adds-if_1 (flush_fragment m disk) (if early then eager else (none, m))
      (not (has_video_tracks m.tracks)) (flush_fragment-Adds i m disk)
      (Adds-if_1 eager (none, m) early
        (Adds-flushed i [] m eager.1
          (flush_fragment-Adds i (record m { first_fragment_flushed = true }) disk))
        (Adds-refl i m))

-- What a sample adds to the stream `i`.
abbrev pub gain : ℕ → Packet → List (List ℕ)
gain i p = if p.idx == i then p.payload ∷ [] else []

sample-Adds :
    (i : ℕ) (m : Muxer) (p : Packet) (o : Option ℤ) (u : Track)
    → find_track p.idx m.tracks ≡ some u
    → Adds i
        (gain i p)
        m
        (record m { tracks = update_track p.idx (append_sample p) m.tracks; last_video_dts = o })
unfolding total
sample-Adds i m p o u h = record {
  sum =
      ap (λ l. emitted i m.output ++ l) (bodies-append_sample i p m.tracks u h)
      ∙ sym (append_assoc (emitted i m.output) (bodies i m.tracks) (gain i p));
  kinds = λ j. video_of-append_sample p m.tracks j;
  written = refl;
  closed = refl;
  waiting = refl;
}

-- A stream with a known kind has a track.
video_of-found :
    (ts : List Track) (i : ℕ) (v : Bool)
    → video_of ts i ≡ some v
    → (u : Track) × (find_track i ts ≡ some u)
video_of-found ts i v h = elim (Option-cases (find_track i ts)) [
  | inl e ↦ let q : video_of ts i ≡ none = video_of-find_track ts i ∙ rw e refl in absurd cc
  | inr e ↦ e
]

flush_fragment_fine : (m : Muxer) → (flush_fragment m true).0 ≡ none
unfolding flush_fragment
flush_fragment_fine m = elim (Bool-cases (has_any_samples m.tracks)) [ inl e ↦ rw e | inr e ↦ rw e ]

flush_at_key_fine : (m : Muxer) (ts : Track) (p : Packet) → (flush_at_key m ts p true).0 ≡ none
unfolding flush_at_key
flush_at_key_fine m ts p =
    elim (Bool-cases (ts.has_video && p.key_frame && has_any_samples m.tracks)) [
      | inl e ↦ rw (e, flush_fragment_fine m) refl
      | inr e ↦ rw e refl
    ]

write_normal-Adds :
    (i : ℕ) (m : Muxer) (ts : Track) (p : Packet) (offset : ℤ)
    → find_track p.idx m.tracks ≡ some ts
    → Adds i (gain i p) m (write_normal m ts p offset true).1
unfolding write_normal
write_normal-Adds i m ts p offset h =
    go (flush_at_key m ts p true) (flush_at_key_fine m ts p) (flush_at_key-Adds i m ts p true)
  where
    go :
        (r : Option Error × Muxer)
        → r.0 ≡ none
        → Adds i [] m r.1
        → Adds i
            (gain i p)
            m
            (elim r.0 as (λ _. Option Error × Muxer) [
              | some x ↦ (some x, r.1)
              | none ↦
                  flush_after
                    (record r.1 {
                      tracks = update_track p.idx (append_sample p) r.1.tracks;
                      last_video_dts =
                          if ts.has_video then some (add64 p.dts offset) else r.1.last_video_dts;
                    })
                    ts
                    p
                    true
            ]).1
    go (some x, m1) e a = absurd cc
    go (none, m1) e a =
        let known : video_of m1.tracks p.idx ≡ some ts.has_video =
          a.kinds p.idx ∙ video_of-find_track m.tracks p.idx ∙ rw h refl in
        let u = video_of-found m1.tracks p.idx ts.has_video known in
        let o : Option ℤ = if ts.has_video then some (add64 p.dts offset) else m1.last_video_dts in
        let m2 = record m1 {
          tracks = update_track p.idx (append_sample p) m1.tracks;
          last_video_dts = o;
        } in
        Adds-after (Adds-trans i [] (gain i p) m m1 m2 a (sample-Adds i m1 p o u.0 u.1))
          (flush_after-Adds i m2 ts p true)

pub write_sample-Adds :
    (i : ℕ) (m : Muxer) (ts : Track) (p : Packet)
    → find_track p.idx m.tracks ≡ some ts
    → Adds i (gain i p) (record m { waiting_for_keyframe = false }) (write_sample m ts p true).1
unfolding write_sample total
write_sample-Adds i m ts p h =
    let offset = elim m.dts_offset as (λ _. ℤ) [ none ↦ p.dts | some o ↦ o ] in
    let m0 = record m { waiting_for_keyframe = false; dts_offset = some offset } in
    let a = write_normal-Adds i m0 ts (record p { dts = sub64 p.dts offset }) offset h in
    record {
      sum = a.sum;
      kinds = a.kinds;
      written = a.written;
      closed = a.closed;
      waiting = a.waiting;
    }

flushed_all :
    (i : ℕ) (m : Muxer)
    → has_any_samples m.tracks ≡ true
    → emitted i (flush_fragment m true).1.output ≡ total i m
unfolding flush_fragment total emitted
flushed_all i m e =
    let ts = patch_tracks m.tracks in
    rw e (
      emitted-append i m.output (fragment _ m.emsg_id (active ts) ∷ [])
      ∙ ap (λ l. emitted i m.output ++ l)
          (append-nil (bodies i (active ts)) ∙ bodies-active i ts ∙ bodies-patch_tracks i m.tracks))

trailer_busy :
    (m : Muxer)
    → m.closed ≡ false
    → has_any_samples m.tracks ≡ true
    → (write_trailer m true).1 ≡ (flush_fragment (record m { closed = true }) true).1
unfolding write_trailer
trailer_busy m h e = simp (h, e)

trailer_idle :
    (m : Muxer)
    → m.closed ≡ false
    → has_any_samples m.tracks ≡ false
    → (write_trailer m true).1 ≡ record m { closed = true }
unfolding write_trailer
trailer_idle m h e = simp (h, e)

pub write_trailer-emitted :
    (i : ℕ) (m : Muxer) → m.closed ≡ false → emitted i (write_trailer m true).1.output ≡ total i m
unfolding total
write_trailer-emitted i m h = elim (Bool-cases (has_any_samples m.tracks)) [
  | inl e ↦ rw (trailer_busy m h e) (flushed_all i (record m { closed = true }) e)
  | inr e ↦ rw (trailer_idle m h e, bodies_idle i m.tracks e) (sym (append-nil _))
]
