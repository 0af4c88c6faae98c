-- ===== src/PacketBuf.antt =====
-- av/packetbuf/buffer.go: a time-limited packet buffer and the demuxers that follow it.
-- The clock enters as the times that the calls read. `notify` counts the channels that were made: a
-- reader that waits on channel k wakes when the count has passed k. Each method holds the lock of the
-- buffer for its whole body, so a method is one step; a demuxer's loop takes one snapshot a round.
pub mod Window
pub mod Follow
pub mod Gop
mod Tests
use vrtc_sdk.Prelude.{
  ℕ, zero, suc, ◌+◌, ◌-◌, Bool, true, false, ◌&&◌, Option, none, some, List, [], ◌∷◌, ◌++◌,
}
use vrtc_sdk.Prelude.{ltb, ◌==◌, if◌then◌else◌, length, drop, get_elem?}
use vrtc_sdk.Prelude.Scan.{count_while, find_last}
use vrtc_sdk.Av.{Stream, Packet, is_video}

pub record Buffer : Type 0 where
  pub streams : List Stream
  pub pkts : List Packet
  pub max_age : ℕ
  pub closed : Bool
  pub notify : ℕ
  pub base_offset : ℕ

pub new : ℕ → Buffer
new max_age = record {
  streams = [];
  pkts = [];
  max_age = max_age;
  closed = false;
  notify = 0;
  base_offset = 0;
}

pub write_header : Buffer → List Stream → Buffer
write_header b streams = record b { streams = streams }

-- `WallClockTime.Before(now.Add(-maxAge))`.
pub is_expired : ℕ → ℕ → Packet → Bool
is_expired now max_age p = ltb (p.wall_clock_time + max_age) now

pub evict_locked : Buffer → ℕ → Buffer
unfolding is_expired
evict_locked b now =
    let i = count_while (is_expired now b.max_age) b.pkts in
    if ltb 0 i then record b { pkts = drop i b.pkts; base_offset = b.base_offset + i } else b

-- `stamp` and `now` are the two readings of the clock.
pub write_packet : Buffer → Packet → ℕ → ℕ → Buffer
write_packet b pkt stamp now =
    let p = record pkt {
      wall_clock_time = if pkt.wall_clock_time == 0 then stamp else pkt.wall_clock_time;
    } in
    let b' = evict_locked (record b { pkts = b.pkts ++ (p ∷ []) }) now in
    record b' { notify = b.notify + 1 }

pub close : Buffer → Buffer
close b = if b.closed then b else record b { closed = true; notify = b.notify + 1 }

-- The test of the scan of `LastGOP`.
pub is_video_key : Packet → Bool
is_video_key p = p.key_frame && is_video p.codec_type

-- `none` is nil.
unfoldable pub last_gop : Buffer → Option (List Packet)
unfolding is_video_key
last_gop b = elim (find_last is_video_key (length b.pkts) b.pkts) [
  | none ↦ none
  | some last_kf ↦ some (drop last_kf b.pkts)
]

pub record Demuxer : Type 0 where
  pub since : ℕ
  pub cursor : ℕ
  pub started : Bool
  pub done : Bool

pub demuxer : ℕ → Demuxer
demuxer since = record { since = since; cursor = 0; started = false; done = false }

-- io.EOF is `none`.
pub get_codecs : Buffer → Option (List Stream)
get_codecs b = elim b.streams [ [] ↦ none | s ∷ ss ↦ some (s ∷ ss) ]

-- What one round of the loop of `ReadPacket` does: return a packet, return io.EOF, go round at once
-- (`continue`), or wait on the channel of its snapshot.
pub data Round : Type 0 where
  returned : Packet → Round
  at_eof : Round
  skipped : Round
  waiting : ℕ → Round

-- The cursor after the scan for the first packet that is not before `since`.
pub start_cursor : Buffer → Demuxer → Demuxer
start_cursor b d = if d.started then d else record d {
  cursor = b.base_offset + count_while (λ p. ltb p.wall_clock_time d.since) b.pkts;
  started = true;
}

-- The rest of the round, from the lagging cursor's correction on.
pub round_at : Buffer → Demuxer → Round × Demuxer
round_at b d1 =
    let cursor = if ltb d1.cursor b.base_offset then b.base_offset else d1.cursor in
    let d2 = record d1 { cursor = cursor } in
    elim (get_elem? b.pkts (cursor - b.base_offset)) [
      | some pkt ↦
          let d3 = record d2 { cursor = cursor + 1 } in
          (if ltb pkt.wall_clock_time d1.since then skipped else returned pkt, d3)
      | none ↦ (if b.closed then at_eof else waiting b.notify, d2)
    ]

pub read_round : Buffer → Demuxer → Round × Demuxer
read_round b d = round_at b (start_cursor b d)

-- What a call of `ReadPacket` comes to on the snapshots that its rounds take: `blocked` is a call that
-- is still waiting after the last of them.
pub data Reply : Type 0 where
  packet : Packet → Reply
  eof : Reply
  blocked : Reply

pub read_rounds : List Buffer → Demuxer → Reply × Demuxer
unfolding read_round
read_rounds [] d = (blocked, d)
read_rounds (b ∷ later) d =
    let (r, d') = read_round b d in
    elim r [
      | returned p ↦ (packet p, d')
      | at_eof ↦ (eof, d')
      | skipped ↦ read_rounds later d'
      | waiting k ↦ read_rounds later d'
    ]

pub read_packet : List Buffer → Demuxer → Reply × Demuxer
unfolding read_rounds
read_packet snapshots d = if d.done then (eof, d) else read_rounds snapshots d

pub close_demuxer : Demuxer → Demuxer
close_demuxer d = record d { done = true }
