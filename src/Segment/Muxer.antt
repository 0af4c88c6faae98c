-- ===== src/Segment/Muxer.antt =====
-- av/segment/muxer.go: SegmentMuxer, which records a segment and feeds the ring buffer.
-- It drives the fragmented MP4 muxer, whose boxes enter as the function `encode` from what the muxer
-- writes to bytes; `objects` is the number of objects of an analytics pointer, and `now` the clock. What
-- the tee has captured is what one call of the inner muxer has written. A ring of none is nil, and then
-- there is no tee. The disk's answer is that of the inner muxer's model; the sidx box is left out.

pub mod Eager
mod Tests
use vrtc_sdk.Prelude.{
  ℕ, ◌+◌, Bool, true, false, not, ◌&&◌, ◌||◌, Option, none, some, List, [], ◌∷◌, ◌++◌,
}
use vrtc_sdk.Prelude.{ltb, leb, ◌==◌, if◌then◌else◌, length, drop}
use vrtc_sdk.Prelude.Int.{ℤ, pos, add64}
use vrtc_sdk.Av.{Packet}
use vrtc_sdk.Fmp4.Track.{Codec}
use vrtc_sdk.Fmp4.Muxer.{
  Muxer, Output, new_muxer, Error as MuxerError, trailer_already_written,
  write_header as mux_header, write_packet as mux_packet, write_trailer as mux_trailer,
}
use vrtc_sdk.Segment.RingBuffer.{Fragment, RingBuffer, push}

pub record PendingFragment : Type 0 where
  pub valid : Bool
  pub dts : ℤ
  pub duration : ℤ
  pub key_frame : Bool
  pub timestamp : ℕ

pub no_fragment : PendingFragment
no_fragment = record {
  valid = false;
  dts = pos 0;
  duration = pos 0;
  key_frame = false;
  timestamp = 0;
}

-- `report` is what `onClose` was called with, and `file_closed` whether the file was closed.
pub record SegmentMuxer : Type 0 where
  pub inner : Muxer
  pub ring : Option RingBuffer
  pub max_segment_bytes : ℕ
  pub closed : Bool
  pub has_video_tracks : Bool
  pub frag : PendingFragment
  pub has_motion : Bool
  pub has_objects : Bool
  pub has_keyframe : Bool
  pub report : Option (Bool × Bool)
  pub file_closed : Bool

pub data Error : Type 0 where
  muxer_rotate close_failed : Error
  inner_failed : MuxerError → Error

unfoldable pub new_segment_muxer : ℕ → Option RingBuffer → SegmentMuxer
unfolding no_fragment
new_segment_muxer max_segment_bytes ring = record {
  inner = new_muxer;
  ring = ring;
  max_segment_bytes = max_segment_bytes;
  closed = false;
  has_video_tracks = false;
  frag = no_fragment;
  has_motion = false;
  has_objects = false;
  has_keyframe = false;
  report = none;
  file_closed = false;
}

pub wrap : Option MuxerError → Option Error
wrap none = none
wrap (some e) = some (inner_failed e)

-- A stream with whether its codec type is video.
pub any_video : List (Bool × (ℕ × Codec)) → Bool
any_video [] = false
any_video ((v, s) ∷ r) = v || any_video r

pub codecs : List (Bool × (ℕ × Codec)) → List (ℕ × Codec)
codecs [] = []
codecs ((v, s) ∷ r) = s ∷ codecs r

pub write_header : SegmentMuxer → List (Bool × (ℕ × Codec)) → Bool → Option Error × SegmentMuxer
write_header m streams disk =
    let (e, inner) = mux_header m.inner (codecs streams) disk in
    (wrap e, record m { has_video_tracks = any_video streams; inner = inner })

pub observe : PendingFragment → Packet → ℕ → PendingFragment
observe p pkt now =
    let first : PendingFragment = record {
      valid = true;
      dts = pkt.dts;
      duration = p.duration;
      key_frame = pkt.key_frame;
      timestamp = if pkt.wall_clock_time == 0 then now else pkt.wall_clock_time;
    } in
    let q = if p.valid then p else first in record q { duration = add64 q.duration pkt.duration }

module _ (encode : Output → List ℕ) (objects : ℕ → ℕ) where
  pub bytes : List Output → List ℕ
  bytes [] = []
  bytes (o ∷ r) = encode o ++ bytes r

  -- `BytesWritten` of the writer.
  pub bytes_written : SegmentMuxer → ℕ
  bytes_written m = length (bytes m.inner.output)

  -- What the inner muxer has written since it was `old`.
  pub captured : Muxer → Muxer → List ℕ
  captured old new = bytes (drop (length old.output) new.output)

  pub push_fragment : SegmentMuxer → List ℕ → PendingFragment → ℕ → SegmentMuxer
  push_fragment m body frag now = elim m.ring [
    | none ↦ m
    | some ring ↦
        let fragment : Fragment = record {
          dts = frag.dts;
          duration = frag.duration;
          key_frame = frag.key_frame;
          body = body;
          timestamp = frag.timestamp;
        } in
        if length body == 0 || not frag.valid
        then m
        else record m { ring = some (push ring fragment now) }
  ]

  -- The flags that `WritePacket` sets before it writes.
  pub note_packet : SegmentMuxer → Packet → SegmentMuxer
  note_packet m pkt = record m {
    has_keyframe = m.has_keyframe || pkt.key_frame;
    has_motion = elim pkt.analytics [ none ↦ m.has_motion | some a ↦ true ];
    has_objects = elim pkt.analytics [
      | none ↦ m.has_objects
      | some a ↦ m.has_objects || ltb 0 (objects a)
    ];
  }

  -- `WritePacket` after the inner muxer took the packet and wrote `body`.
  pub settle : SegmentMuxer → Packet → List ℕ → ℕ → SegmentMuxer
  settle m pkt body now =
      let alone = observe m.frag pkt now in
      let flushed =
        if pkt.key_frame && m.frag.valid
        then record (push_fragment m body m.frag now) { frag = no_fragment }
        else m in
      if not m.has_video_tracks
      then record (push_fragment m body alone now) { frag = no_fragment }
      else record flushed { frag = observe flushed.frag pkt now }

  pub write_packet : SegmentMuxer → Packet → Bool → ℕ → Option Error × SegmentMuxer
  write_packet m pkt disk now =
      let m1 = note_packet m pkt in
      let (e, inner) = mux_packet m1.inner pkt disk in
      let m2 = record m1 { inner = inner } in
      if ltb 0 m.max_segment_bytes
        && pkt.key_frame
        && m.has_keyframe
        && leb m.max_segment_bytes (bytes_written m)
      then (some muxer_rotate, m)
      else elim e [
        | some x ↦ (some (inner_failed x), m2)
        | none ↦ (none, settle m2 pkt (captured m1.inner inner) now)
      ]

  pub write_trailer : SegmentMuxer → Bool → ℕ → Option Error × SegmentMuxer
  write_trailer m disk now =
      let (e, inner) = mux_trailer m.inner disk in
      let m1 = record m { inner = inner } in
      elim e [
        | some x ↦ (some (inner_failed x), m1)
        | none ↦ (
          none,
          record (push_fragment m1 (captured m.inner inner) m.frag now) { frag = no_fragment },
        )
      ]

  -- The rest of `Close`, after the trailer; `shut` is whether the file can be closed.
  pub finish : SegmentMuxer → Bool → Option Error × SegmentMuxer
  finish m shut = (
    (if shut then none else some close_failed),
    record m { report = some (m.has_motion, m.has_objects); file_closed = true },
  )

  pub close : SegmentMuxer → Bool → Bool → ℕ → Option Error × SegmentMuxer
  close m disk shut now =
      let (e, m1) = write_trailer (record m { closed = true }) disk now in
      if m.closed then (none, m) else elim e [
        | some (inner_failed trailer_already_written) ↦ finish m1 shut
        | some x ↦ (some x, m1)
        | none ↦ finish m1 shut
      ]
