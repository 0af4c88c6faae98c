-- ===== src/Fmp4/Track/Video.antt =====
-- The tracks that there are, through the changes of their samples.
use vrtc_sdk.Prelude.{ℕ, ◌≡◌, refl, inl, inr, Bool, Option, none, some, List, [], ◌∷◌}
use vrtc_sdk.Prelude.{◌==◌, if◌then◌else◌, Option-cases, Bool-cases}
use vrtc_sdk.Av.{Packet}
use vrtc_sdk.Fmp4.Track.Bodies.{update-nil, update_here, update_later, update_nowhere}
use vrtc_sdk.Fmp4.Track.{Track, find_track, update_track, patch_tracks, clear_tracks, append_sample}

-- Whether the stream has a track, and whether that is video.
unfoldable pub video_of : List Track → ℕ → Option Bool
video_of [] i = none
video_of (t ∷ ts) i = elim (video_of ts i) [
  | some v ↦ some v
  | none ↦ if t.stream_idx == i then some t.has_video else none
]

pub video_of-find_track :
    (ts : List Track) (i : ℕ)
    → video_of ts i
      ≡ elim (find_track i ts) as (λ _. Option Bool) [ none ↦ none | some t ↦ some t.has_video ]
unfolding video_of find_track
video_of-find_track [] i = refl
video_of-find_track (t ∷ ts) i = elim (Option-cases (find_track i ts)) [
  | inl e ↦ elim (Bool-cases (t.stream_idx == i)) [
    | inl k ↦ rw (video_of-find_track ts i, e, k) refl
    | inr k ↦ rw (video_of-find_track ts i, e, k) refl
  ]
  | inr e ↦ rw (video_of-find_track ts i, e.1) refl
]

pub video_of-patch_tracks : (ts : List Track) (i : ℕ) → video_of (patch_tracks ts) i ≡ video_of ts i
unfolding video_of patch_tracks
video_of-patch_tracks [] i = refl
video_of-patch_tracks (t ∷ ts) i = rw (video_of-patch_tracks ts i)

pub video_of-clear_tracks : (ts : List Track) (i : ℕ) → video_of (clear_tracks ts) i ≡ video_of ts i
unfolding video_of clear_tracks
video_of-clear_tracks [] i = refl
video_of-clear_tracks (t ∷ ts) i = rw (video_of-clear_tracks ts i)

video_of-cons :
    (t : Track) (ts us : List Track) (i : ℕ)
    → video_of ts i ≡ video_of us i
    → video_of (t ∷ ts) i ≡ video_of (t ∷ us) i
unfolding video_of
video_of-cons t ts us i h = rw h

pub video_of-append_sample :
    (p : Packet) (ts : List Track) (i : ℕ)
    → video_of (update_track p.idx (append_sample p) ts) i ≡ video_of ts i
unfolding video_of append_sample
video_of-append_sample p [] i = rw (update-nil p.idx (append_sample p)) refl
video_of-append_sample p (t ∷ ts) i = elim (Option-cases (find_track p.idx ts)) [
  | inl e ↦ elim (Bool-cases (t.stream_idx == p.idx)) [
    | inl k ↦ rw (update_here p.idx (append_sample p) t ts e k) refl
    | inr k ↦ rw (update_nowhere p.idx (append_sample p) t ts e k) refl
  ]
  | inr e ↦ rw (update_later p.idx (append_sample p) t e.0 ts e.1) (
      video_of-cons t (update_track p.idx (append_sample p) ts) ts i
        (video_of-append_sample p ts i))
]
