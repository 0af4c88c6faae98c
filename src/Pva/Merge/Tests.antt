-- ===== src/Pva/Merge/Tests.antt =====
-- Merging on one packet.
use vrtc_sdk.Prelude.{ℕ, ◌≡◌, refl, Bool, true, false, none, some, [], ◌∷◌}
use vrtc_sdk.Prelude.Int.{pos}
use vrtc_sdk.Av.{Packet, is_video}
use vrtc_sdk.Chain.{ok}
use vrtc_sdk.Pva.Merge.{Fetch, merge_packet, block_packet, wait_loop, notified, expired}

abbrev packet_of : ℕ → Bool → Packet
packet_of frame key = record {
  key_frame = key;
  is_discontinuity = false;
  idx = 0;
  codec_type = 4;
  frame_id = pos frame;
  dts = pos 0;
  pts_offset = pos 0;
  duration = pos 40;
  wall_clock_time = 900;
  payload = [];
  analytics = none;
  new_codecs = none;
}

abbrev nothing_yet : Fetch
nothing_yet frame time = none

abbrev result_seven : Fetch
result_seven frame time = some 7

merged_at_once :
    merge_packet result_seven (ok (packet_of 1 true))
    ≡ ok (record (packet_of 1 true) { analytics = some 7 })
unfolding merge_packet
merged_at_once = refl

merged_at_message :
    block_packet nothing_yet nothing_yet
      (notified nothing_yet ∷ notified result_seven ∷ expired ∷ [])
      (ok (packet_of 1 true))
    ≡ some (ok (record (packet_of 1 true) { analytics = some 7 }))
unfolding block_packet wait_loop is_video
merged_at_message = refl
