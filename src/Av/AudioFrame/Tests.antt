-- ===== src/Av/AudioFrame/Tests.antt =====
-- Audio frames of two planes.
use vrtc_sdk.Prelude.{ℕ, ◌≡◌, refl, some, List, [], ◌∷◌}
use vrtc_sdk.Av.AudioFrame.{AudioFrame, s16p, concat_frames, slice_frame, bytes_per_sample}
use vrtc_sdk.Av.AudioFrame.Concat.{concat_frames-slice_frame}

abbrev frame_of : ℕ → List (List ℕ) → AudioFrame
frame_of count planes = record {
  sample_format = s16p;
  channel_layout = 6;
  sample_count = count;
  sample_rate = 48000;
  planes = planes;
}

abbrev first_frame : AudioFrame
first_frame = frame_of 1 ((1 ∷ 2 ∷ []) ∷ (5 ∷ 6 ∷ []) ∷ [])

abbrev second_frame : AudioFrame
second_frame = frame_of 2 ((3 ∷ 4 ∷ 5 ∷ 6 ∷ []) ∷ (7 ∷ 8 ∷ 9 ∷ 10 ∷ []) ∷ [])

concat_frames-slice_frame_example :
    (c : AudioFrame) × (concat_frames first_frame second_frame ≡ some c)
    × (slice_frame c 0 1 ≡ some first_frame)
    × (slice_frame c 1 3
        ≡ some (record first_frame { planes = second_frame.planes; sample_count = 2 }))
unfolding bytes_per_sample
concat_frames-slice_frame_example =
    concat_frames-slice_frame first_frame second_frame (refl, refl, (refl, refl, tt))
