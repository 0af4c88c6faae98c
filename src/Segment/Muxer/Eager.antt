-- ===== src/Segment/Muxer/Eager.antt =====
-- The first fragment of a video segment, which the inner muxer writes early.
use vrtc_sdk.Prelude.{ℕ, ◌≡◌, refl, ap, ◌∙◌, Bool, true, false, some, List, [], ◌∷◌, ◌++◌}
use vrtc_sdk.Av.{Packet}
use vrtc_sdk.Fmp4.Track.{
  h264, Picture, new_track_state, new_tracks, has_any_samples, has_video_tracks, find_track,
  update_track, append_sample, back_fill, make_sample, patch_last, patch_tracks, active,
  clear_tracks,
}
use vrtc_sdk.Fmp4.Muxer.{
  Output, write_header as mux_header, write_packet as mux_packet, new_muxer, flush_fragment,
  gap_since, note_gap, is_awaited, flush_at_key, flush_after, write_normal, write_sample,
}
use vrtc_sdk.Fmp4.Track.Bodies.{bodies, own, data_of}
use vrtc_sdk.Fmp4.Track.Video.{video_of}
use vrtc_sdk.Fmp4.Muxer.Conserve.{emitted, total_written, total_started}
use vrtc_sdk.Fmp4.Muxer.Written.{write_all as mux_all, write_all-total, kept, admits, payloads_of}
use vrtc_sdk.Segment.RingBuffer.{RingBuffer}
use vrtc_sdk.Segment.Muxer.{
  SegmentMuxer, new_segment_muxer, write_header, write_packet, note_packet, settle, push_fragment,
  captured, no_fragment, observe, any_video, codecs, bytes,
}

-- A packet of the video stream.
abbrev pub video : Bool → Packet → Packet
video key p = record p { idx = 0; key_frame = key }

-- A segment without a limit, with its header written.
pub begun : Picture → RingBuffer → SegmentMuxer
unfolding write_header new_segment_muxer
begun v ring = (write_header (new_segment_muxer 0 (some ring)) ((true, (0, h264 v)) ∷ []) true).1

module _ (encode : Output → List ℕ) (objects : ℕ → ℕ) (now : ℕ) where
  pub write_all : SegmentMuxer → List Packet → SegmentMuxer
  write_all m [] = m
  write_all m (p ∷ ps) = write_all (write_packet encode objects m p true now).1 ps

  after_two :
      (v : Picture) (ring : RingBuffer) (k p : Packet)
      → (write_all (begun v ring) (video true k ∷ video false p ∷ [])).inner
        ≡ mux_all (begun v ring).inner (video true k ∷ video false p ∷ [])
  unfolding write_all begun new_segment_muxer write_header write_packet note_packet settle
      push_fragment captured no_fragment observe any_video codecs bytes mux_header mux_packet
      new_muxer flush_fragment gap_since note_gap is_awaited flush_at_key flush_after write_normal
      write_sample new_track_state new_tracks has_any_samples has_video_tracks find_track
      update_track append_sample back_fill make_sample patch_last patch_tracks active clear_tracks
      mux_all
  after_two v ring k p = refl

  pending_none :
      (v : Picture) (ring : RingBuffer) (k p : Packet)
      → bodies 0 (mux_all (begun v ring).inner (video true k ∷ video false p ∷ [])).tracks ≡ []
  unfolding write_all begun new_segment_muxer write_header write_packet note_packet settle
      push_fragment captured no_fragment observe any_video codecs bytes mux_header mux_packet
      new_muxer flush_fragment gap_since note_gap is_awaited flush_at_key flush_after write_normal
      write_sample new_track_state new_tracks has_any_samples has_video_tracks find_track
      update_track append_sample back_fill make_sample patch_last patch_tracks active clear_tracks
      mux_all bodies own data_of
  pending_none v ring k p = refl

  start_none : (v : Picture) (ring : RingBuffer) → bodies 0 (begun v ring).inner.tracks ≡ []
  unfolding begun new_segment_muxer write_header mux_header new_muxer codecs new_tracks
      new_track_state bodies own data_of
  start_none v ring = refl

  fragment_written :
      (v : Picture) (ring : RingBuffer) (k p : Packet)
      → emitted 0 (mux_all (begun v ring).inner (video true k ∷ video false p ∷ [])).output
        ≡ k.payload ∷ p.payload ∷ []
  unfolding begun new_segment_muxer write_header mux_header new_muxer any_video codecs new_tracks
      new_track_state has_video_tracks kept admits payloads_of video_of
  fragment_written v ring k p =
      let ps = video true k ∷ video false p ∷ [] in
      let m = (begun v ring).inner in
      total_written 0 (mux_all m ps) (pending_none v ring k p)
      ∙ (write_all-total 0 (video_of m.tracks) m ps (record { written = refl; live = refl })
          (λ j. refl)).0
      ∙ ap (λ l. l ++ (k.payload ∷ p.payload ∷ [])) (total_started 0 m.tracks ∙ start_none v ring)

  nothing_pushed :
      (v : Picture) (ring : RingBuffer) (k p q : Packet)
      → (write_all (begun v ring) (video true k ∷ video false p ∷ video true q ∷ [])).ring
        ≡ some ring
  unfolding write_all begun new_segment_muxer write_header write_packet note_packet settle
      push_fragment captured no_fragment observe any_video codecs bytes mux_header mux_packet
      new_muxer flush_fragment gap_since note_gap is_awaited flush_at_key flush_after write_normal
      write_sample new_track_state new_tracks has_any_samples has_video_tracks find_track
      update_track append_sample back_fill make_sample patch_last patch_tracks active clear_tracks
  nothing_pushed v ring k p q = refl

  -- A segment of one H.264 stream gets a key frame, a frame that is none, and a key frame. After the second
  -- packet the file has a fragment with the first two, but also after the third one the ring buffer has
  -- got no fragment.
  pub eager_first-lost :
      (v : Picture) (ring : RingBuffer) (k p q : Packet)
      → (emitted 0 (write_all (begun v ring) (video true k ∷ video false p ∷ [])).inner.output
          ≡ k.payload ∷ p.payload ∷ [])
        × ((write_all (begun v ring) (video true k ∷ video false p ∷ video true q ∷ [])).ring
            ≡ some ring)
  eager_first-lost v ring k p q = (
    ap (λ m. emitted 0 m.output) (after_two v ring k p) ∙ fragment_written v ring k p,
    nothing_pushed v ring k p q,
  )
