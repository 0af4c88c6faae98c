-- ===== src/Fmp4/Tests.antt =====
-- A muxer of one video and one audio stream.
use vrtc_sdk.Prelude.{ℕ, ◌*◌, ◌^◌, ◌≡◌, refl, Bool, true, false, none, List, [], ◌∷◌}
use vrtc_sdk.Prelude.Int.{pos}
use vrtc_sdk.Av.{Packet}
use vrtc_sdk.Fmp4.Track.{
  Picture, Sound, Codec, h264, aac, new_tracks, has_video_tracks, new_track_state,
}
use vrtc_sdk.Fmp4.Track.Video.{video_of}
use vrtc_sdk.Fmp4.Muxer.{new_muxer, write_header}
use vrtc_sdk.Fmp4.Muxer.Conserve.{emitted}
use vrtc_sdk.Fmp4.Muxer.Written.{record_all, record_all-emitted, kept, payloads_of}

abbrev packet_of : ℕ → Bool → ℕ → Packet
packet_of stream key t = record {
  key_frame = key;
  is_discontinuity = false;
  idx = stream;
  codec_type = 2;
  frame_id = pos 0;
  dts = pos (t * 40 * 10 ^ 6);
  pts_offset = pos 0;
  duration = pos 0;
  wall_clock_time = 0;
  payload = t ∷ [];
  analytics = none;
  new_codecs = none;
}

abbrev hd : Picture
hd = record { width = 1920; height = 1080; config = 1 ∷ 100 ∷ 0 ∷ 40 ∷ [] }

abbrev stereo : Sound
stereo = record { rate = 48000; channels = 2; config = 17 ∷ 144 ∷ [] }

abbrev streams_av : List (ℕ × Codec)
streams_av = (0, h264 hd) ∷ (1, aac stereo) ∷ []

abbrev packets_av : List Packet
packets_av =
    packet_of 0 false 1
    ∷ packet_of 1 true 2
    ∷ packet_of 0 true 3
    ∷ packet_of 1 true 4
    ∷ packet_of 0 false 5
    ∷ packet_of 0 true 6
    ∷ []

header_written : (write_header new_muxer streams_av true).0 ≡ none
unfolding write_header new_muxer new_tracks new_track_state
header_written = refl

record_all-emitted_example :
    emitted 0 (record_all streams_av packets_av).output
    ≡ payloads_of 0 (
        kept
          (video_of (new_tracks streams_av 1))
          (has_video_tracks (new_tracks streams_av 1))
          packets_av)
record_all-emitted_example = record_all-emitted streams_av packets_av 0 header_written
