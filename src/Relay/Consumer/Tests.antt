-- ===== src/Relay/Consumer/Tests.antt =====
-- A consumer with room for one packet.
use vrtc_sdk.Prelude.{ℕ, ◌≡◌, refl, Bool, true, false, none, List, [], ◌∷◌}
use vrtc_sdk.Prelude.Int.{pos}
use vrtc_sdk.Av.{Packet}
use vrtc_sdk.Relay.Consumer.{Consumer, sent, offer_leaky, take_packet}
use vrtc_sdk.Relay.Consumer.Recovery.{
  Event, offered, taken, delivered, withheld, dropped, fate, fates, Resyncs, fates-Resyncs,
}

abbrev packet_of : ℕ → Bool → Packet
packet_of frame key = record {
  key_frame = key;
  is_discontinuity = false;
  idx = 0;
  codec_type = 4;
  frame_id = pos frame;
  dts = pos 0;
  pts_offset = pos 0;
  duration = pos 40;
  wall_clock_time = 0;
  payload = [];
  analytics = none;
  new_codecs = none;
}

abbrev one_slot : Consumer
one_slot = record {
  id = "viewer";
  has_err_ch = false;
  closing = false;
  started = true;
  inactive = false;
  wrote_header = true;
  headers = [];
  headers_err = none;
  headers_available = sent;
  packets = [];
  queue_size = 1;
  skip_before = pos 0;
  skip_before_set = false;
  needs_keyframe = false;
  rotations = 0;
  skips = 0;
}

abbrev stall : List Event
stall =
    offered (packet_of 1 true)
    ∷ offered (packet_of 2 false)
    ∷ taken
    ∷ offered (packet_of 3 false)
    ∷ offered (packet_of 4 true)
    ∷ []

fates_of_stall :
    fates one_slot stall
    ≡ (packet_of 1 true, delivered)
      ∷ (packet_of 2 false, dropped)
      ∷ (packet_of 3 false, withheld)
      ∷ (packet_of 4 true, delivered)
      ∷ []
unfolding fates fate offer_leaky take_packet
fates_of_stall = refl

fates-Resyncs_example : Resyncs false (fates one_slot stall)
fates-Resyncs_example = fates-Resyncs one_slot stall refl
