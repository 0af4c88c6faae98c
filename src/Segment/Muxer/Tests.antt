-- ===== src/Segment/Muxer/Tests.antt =====
-- A segment with three frames, whose boxes are encoded as one byte each.
use vrtc_sdk.Prelude.{ℕ, ◌*◌, ◌^◌, ◌≡◌, true, false, none, some, List, [], ◌∷◌}
use vrtc_sdk.Prelude.Int.{pos}
use vrtc_sdk.Av.{Packet}
use vrtc_sdk.Fmp4.Track.{Picture}
use vrtc_sdk.Fmp4.Muxer.{Output}
use vrtc_sdk.Fmp4.Muxer.Conserve.{emitted}
use vrtc_sdk.Segment.RingBuffer.{new_ring_buffer}
use vrtc_sdk.Segment.Muxer.Eager.{video, begun, write_all, eager_first-lost}

abbrev one_byte : Output → List ℕ
one_byte o = 1 ∷ []

abbrev small : Picture
small = record { width = 320; height = 240; config = [] }

abbrev frame : ℕ → Packet
frame t = record {
  key_frame = false;
  is_discontinuity = false;
  idx = 0;
  codec_type = 2;
  frame_id = pos 0;
  dts = pos (t * 40 * 10 ^ 6);
  pts_offset = pos 0;
  duration = pos (40 * 10 ^ 6);
  wall_clock_time = 0;
  payload = t ∷ [];
  analytics = none;
  new_codecs = none;
}

eager_first-lost_example :
    (emitted 0
        (write_all one_byte
          (λ a. a)
          900
          (begun small (new_ring_buffer 60))
          (video true (frame 1) ∷ video false (frame 2) ∷ [])).inner.output
      ≡ (1 ∷ []) ∷ (2 ∷ []) ∷ [])
    × ((write_all one_byte
          (λ a. a)
          900
          (begun small (new_ring_buffer 60))
          (video true (frame 1) ∷ video false (frame 2) ∷ video true (frame 3) ∷ [])).ring
        ≡ some (new_ring_buffer 60))
eager_first-lost_example =
    eager_first-lost one_byte (λ a. a) 900 small (new_ring_buffer 60) (frame 1) (frame 2) (frame 3)
