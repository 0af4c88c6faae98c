-- ===== src/Relay/Registry/Tests.antt =====
-- A relay with a limit of one consumer, and a consumer attached between the two halves of a round.
use vrtc_sdk.Prelude.{
  ℕ, suc, ◌+◌, ◌*◌, ◌≤◌, ◌≡◌, refl, arith, Bool, true, false, none, some, ◌>>=◌, [], ◌∷◌, ◌++◌,
  length,
}
use vrtc_sdk.Prelude.Int.{pos}
use vrtc_sdk.Av.{Packet, is_video}
use vrtc_sdk.PacketBuf.{Buffer, last_gop}
use vrtc_sdk.Relay.Consumer.{Consumer, new_consumer}
use vrtc_sdk.Relay.Registry.{
  Relay, new_relay, check_add, has_consumer, enlist, replay, last_of, start_relay, set_headers,
  close_relay, clear_consumers,
}
use vrtc_sdk.Relay.Registry.Handoff.{offers, replay-offers}
use vrtc_sdk.Relay.Registry.Ids.{Distinct}
use vrtc_sdk.Relay.Registry.World.{
  World, Reach, here, next, keeps, starts, headers_come, begins, finishes, closes, ends, new_world,
}
use vrtc_sdk.Relay.Registry.Members.{Reach-limit, WhenCleared}
use vrtc_sdk.Relay.Registry.Overlap.{overlap-enlist}

abbrev packet_of : ℕ → Bool → Packet
packet_of frame key = record {
  key_frame = key;
  is_discontinuity = false;
  idx = 0;
  codec_type = 4;
  frame_id = pos frame;
  dts = pos (40 * frame);
  pts_offset = pos 0;
  duration = pos 40;
  wall_clock_time = 0;
  payload = [];
  analytics = none;
  new_codecs = none;
}

abbrev gop_buffer : Buffer
gop_buffer = record {
  streams = [];
  pkts = packet_of 1 true ∷ packet_of 2 false ∷ [];
  max_age = 30;
  closed = false;
  notify = 2;
  base_offset = 0;
}

-- A relay that takes one consumer and has none.
abbrev started_relay : Relay
started_relay = record {
  closing = false;
  started = true;
  has_context = true;
  consumers = [];
  headers = [];
  headers_err = none;
  headers_available = true;
  pkt_buf = gop_buffer;
  max_consumers = 1;
  packet_buf_window = 0;
  consumer_queue_size = 0;
  packets_read = 0;
  video_packets_read = 0;
  bytes_read = 0;
  key_frames = 0;
  dropped_packets = 0;
  last_packet_at = 0;
}

abbrev viewer : Consumer
viewer = new_consumer "viewer" false 50

abbrev recorder : Consumer
recorder = new_consumer "recorder" false 50

-- The packet 2, stored when the consumer was attached, is delivered after it: it comes twice. The
-- packet 1 is below the end of the group, and is skipped.
replay-offers_example :
    (c' : Consumer) × ((replay gop_buffer viewer >>= λ c1.
    offers c1 (packet_of 1 true ∷ packet_of 2 false ∷ packet_of 3 false ∷ []))
      ≡ some c')
    × (c'.packets
        ≡ viewer.packets
          ++ ((packet_of 1 true ∷ packet_of 2 false ∷ [])
              ++ (packet_of 2 false ∷ packet_of 3 false ∷ [])))
unfolding last_gop new_consumer is_video last_of
replay-offers_example =
    replay-offers gop_buffer viewer (packet_of 1 true) (packet_of 2 false ∷ [])
      (packet_of 1 true ∷ packet_of 2 false ∷ packet_of 3 false ∷ []) refl (omega arith)

overlap-enlist_example :
    let r2 = (enlist (enlist started_relay viewer).1 recorder).1 in
    ((enlist started_relay viewer).0 ≡ none)
    × ((enlist (enlist started_relay viewer).1 recorder).0 ≡ none)
    × (length r2.consumers ≡ suc r2.max_consumers)
unfolding check_add has_consumer new_consumer
overlap-enlist_example = overlap-enlist started_relay viewer recorder refl refl refl refl

-- A relay of one consumer is started, gets its codecs, and takes a consumer.
abbrev served : World
served = record {
  relay = (enlist (set_headers (start_relay (new_relay 1 0 0)).1 []) viewer).1;
  calls = [];
  cleared = false;
}

served_reach : Reach 1 (new_world 1 0 0) served
unfolding new_relay start_relay set_headers check_add has_consumer new_consumer
served_reach =
    next
      (next (next (next here (keeps _ starts refl)) (keeps _ (headers_come []) refl))
        (begins "viewer" refl (omega arith) refl))
      (finishes [] [] viewer refl refl)

served_one : length served.relay.consumers ≡ 1
unfolding new_relay start_relay set_headers enlist has_consumer new_consumer
served_one = refl

Reach-limit_example :
    Distinct served.relay.consumers
    × (suc (length served.relay.consumers) ≤ 1 + 1)
    × WhenCleared served.cleared served.relay
Reach-limit_example = Reach-limit 0 0 (omega arith) served_reach

-- The relay is closed, and its goroutine ends.
ended_reach :
    Reach 1
      (new_world 1 0 0)
      (record { relay = clear_consumers (close_relay served.relay); cleared = true; calls = [] })
unfolding new_relay start_relay set_headers enlist has_consumer new_consumer close_relay
ended_reach = next (next served_reach (closes refl)) (ends refl)
