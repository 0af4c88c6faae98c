-- ===== src/PacketBuf/Tests.antt =====
-- The packet buffer on three packets, the first of which has expired.
use vrtc_sdk.Prelude.{ℕ, ◌≡◌, refl, arith, true, false, none, List, [], ◌∷◌}
use vrtc_sdk.Prelude.Int.{pos}
use vrtc_sdk.Av.{Packet}
use vrtc_sdk.PacketBuf.{Buffer, demuxer, new, write_packet, evict_locked, is_expired}
use vrtc_sdk.PacketBuf.{
  read_round, start_cursor, round_at, last_gop, read_packet, read_rounds, packet,
}
use vrtc_sdk.PacketBuf.Window.{Tracks, Written, stamped, write_packet_window}
use vrtc_sdk.PacketBuf.Follow.{read_round_stream, stream_round, position}
use vrtc_sdk.PacketBuf.Gop.{IsGop, last_gop-IsGop}

abbrev packet_at : ℕ → Packet
packet_at time = record {
  key_frame = true;
  is_discontinuity = false;
  idx = 0;
  codec_type = 4;
  frame_id = pos 0;
  dts = pos 0;
  pts_offset = pos 0;
  duration = pos 40;
  wall_clock_time = time;
  payload = [];
  analytics = none;
  new_codecs = none;
}

abbrev history : List Packet
history = packet_at 100 ∷ packet_at 200 ∷ packet_at 300 ∷ []

-- A window over `history` from its second packet on.
abbrev window : Buffer
window = record {
  streams = [];
  pkts = packet_at 200 ∷ packet_at 300 ∷ [];
  max_age = 150;
  closed = false;
  notify = 3;
  base_offset = 1;
}

written_window :
    write_packet
      (write_packet (write_packet (new 150) (packet_at 100) 0 100) (packet_at 200) 0 200)
      (packet_at 300)
      0
      300
    ≡ window
unfolding write_packet evict_locked is_expired new
written_window = refl

-- A demuxer that stands before the evicted packet goes on at the first one still buffered.
lagging_read :
    (read_packet (window ∷ []) (record { since = 0; cursor = 0; started = true; done = false })).0
    ≡ packet (packet_at 200)
unfolding read_packet read_rounds read_round start_cursor round_at
lagging_read = refl

window-Tracks : Tracks history window
window-Tracks = record { held = refl; evicted = omega arith }

write_packet_window_example :
    Written history window
      (write_packet window (packet_at 0) 400 400)
      (stamped (packet_at 0) 400)
      400
write_packet_window_example = write_packet_window history window (packet_at 0) 400 400 window-Tracks

read_round_stream_example :
    ((read_round window (demuxer 250)).0, (read_round window (demuxer 250)).1.cursor)
    ≡ stream_round history window.closed window.notify
        (demuxer 250).since
        (position window (demuxer 250))
read_round_stream_example = read_round_stream history window (demuxer 250) window-Tracks

last_gop-IsGop_example : IsGop window.pkts (last_gop window)
last_gop-IsGop_example = last_gop-IsGop window
