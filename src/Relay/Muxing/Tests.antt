-- ===== src/Relay/Muxing/Tests.antt =====
-- A consumer's goroutine on two packets, with a rotation that works and one that does not.
use vrtc_sdk.Prelude.{ℕ, ◌≡◌, refl, ◌⊎◌, true, false, none, List, [], ◌∷◌}
use vrtc_sdk.Prelude.Int.{pos}
use vrtc_sdk.Av.{Packet}
use vrtc_sdk.Relay.Muxing.{
  Answer, fine, rotate, broken, open_muxer, header, packet, trailer, close_muxer,
}
use vrtc_sdk.Relay.Muxing.{
  call, close_mux, open_and_init_muxer, rotate_muxer, change_codec, handle_packet, packet_loop, run,
}
use vrtc_sdk.Relay.Muxing.Status.{quiet, status, absent, ended}
use vrtc_sdk.Relay.Muxing.Closed.{run-closes}
use vrtc_sdk.Relay.Muxing.Written.{accepted, Accepts, run-Accepts}

abbrev packet_of : ℕ → Packet
packet_of frame = record {
  key_frame = true;
  is_discontinuity = false;
  idx = 0;
  codec_type = 4;
  frame_id = pos frame;
  dts = pos 0;
  pts_offset = pos 0;
  duration = pos 40;
  wall_clock_time = 0;
  payload = [];
  analytics = none;
  new_codecs = none;
}

-- The first muxer takes a packet and asks for rotation at the second.
abbrev rotating : List Answer
rotating = fine ∷ fine ∷ fine ∷ rotate ∷ []

rotation_log :
    (run (quiet rotating) true [] (packet_of 1 ∷ packet_of 2 ∷ [])).1.log
    ≡ (0, open_muxer, fine)
      ∷ (0, header [], fine)
      ∷ (0, packet (packet_of 1), fine)
      ∷ (0, packet (packet_of 2), rotate)
      ∷ (0, trailer, fine)
      ∷ (0, close_muxer, fine)
      ∷ (1, open_muxer, fine)
      ∷ (1, header [], fine)
      ∷ (1, packet (packet_of 2), fine)
      ∷ (1, trailer, fine)
      ∷ (1, close_muxer, fine)
      ∷ []
unfolding run packet_loop handle_packet change_codec rotate_muxer open_and_init_muxer close_mux call
rotation_log = refl

-- If the factory fails after a request for rotation, the old muxer is closed twice.
closed_twice :
    (run
      (quiet (fine ∷ fine ∷ rotate ∷ fine ∷ fine ∷ broken ∷ []))
      true
      []
      (packet_of 1 ∷ [])).1.log
    ≡ (0, open_muxer, fine)
      ∷ (0, header [], fine)
      ∷ (0, packet (packet_of 1), rotate)
      ∷ (0, trailer, fine)
      ∷ (0, close_muxer, fine)
      ∷ (1, open_muxer, broken)
      ∷ (0, trailer, fine)
      ∷ (0, close_muxer, fine)
      ∷ []
unfolding run packet_loop handle_packet change_codec rotate_muxer open_and_init_muxer close_mux call
closed_twice = refl

run-closes_example :
    let w = (run (quiet rotating) true [] (packet_of 1 ∷ packet_of 2 ∷ [])).1 in
    (status w 0 ≡ ended) ⊎ (status w 0 ≡ absent)
run-closes_example = run-closes rotating true [] (packet_of 1 ∷ packet_of 2 ∷ []) 0

run-Accepts_example :
    let r = run (quiet rotating) true [] (packet_of 1 ∷ packet_of 2 ∷ []) in
    Accepts [] (packet_of 1 ∷ packet_of 2 ∷ []) (accepted r.1.log) r.0
run-Accepts_example = run-Accepts rotating true [] (packet_of 1 ∷ packet_of 2 ∷ [])
