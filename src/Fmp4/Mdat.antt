-- ===== src/Fmp4/Mdat.antt =====
-- av/format/fmp4/demuxer.go: how the samples of an mdat become packets.
use vrtc_sdk.Prelude.{ℕ, ◌-◌, ◌/◌, ◌%◌, ◌^◌, false, ◌||◌, none, some, List, [], ◌∷◌}
use vrtc_sdk.Prelude.{ltb, ◌==◌, if◌then◌else◌, length, take, drop, ◌⊎◌, inl, inr}
use vrtc_sdk.Prelude.Int.{ℤ, pos, ltb_ℤ, add64, scale64, quot, pos_part}
use vrtc_sdk.Prelude.Endian.{codes, word32, same_bytes}
use vrtc_sdk.Av.{Packet}
use vrtc_sdk.Fmp4.Moof.{TrackDef, RawSample, find_def, parse_moof}

-- `ticksToDuration`.
unfoldable pub ticks_to_duration : ℤ → ℕ → ℤ
ticks_to_duration ticks timescale =
    if timescale == 0 then pos 0 else quot (scale64 ticks (10 ^ 9)) timescale

-- The loop of `parseMoofMdat`.
unfoldable pub packet_of : TrackDef → RawSample → List ℕ → Packet
unfolding ticks_to_duration
packet_of track s body = record {
  key_frame = s.flags / 2 ^ 16 % 2 == 0;
  is_discontinuity = false;
  idx = track.stream_idx;
  codec_type = track.codec.codec_type;
  frame_id = pos 0;
  dts = ticks_to_duration s.dts track.timescale;
  pts_offset = ticks_to_duration s.cts track.timescale;
  duration = ticks_to_duration (pos s.duration) track.timescale;
  wall_clock_time = 0;
  payload = body;
  analytics = none;
  new_codecs = none;
}

unfoldable pub packets_of : List TrackDef → List ℕ → List RawSample → List Packet
unfolding find_def packet_of
packets_of defs mdat [] = []
packets_of defs mdat (s ∷ r) =
    let later = packets_of defs mdat r in
    elim (find_def s.track_id defs) [
      | none ↦ later
      | some track ↦
          if ltb_ℤ s.mdat_off (pos 0) || ltb_ℤ (pos (length mdat)) (add64 s.mdat_off (pos s.size))
          then later
          else packet_of track s (take s.size (drop (pos_part s.mdat_off) mdat)) ∷ later
    ]

-- Why a box is not read.
pub data ReadError : Type 0 where
  eof unexpected_eof malformed : ReadError

-- `readBox` on what is left of the stream: an error, or the type and the payload; and what is left then.
unfoldable pub read_box : List ℕ → (ReadError ⊎ (List ℕ × List ℕ)) × List ℕ
read_box [] = (inl eof, [])
read_box (s0 ∷ s1 ∷ s2 ∷ s3 ∷ t0 ∷ t1 ∷ t2 ∷ t3 ∷ r) =
    let size = word32 s0 s1 s2 s3 in
    if ltb size 8
    then (inl malformed, r)
    else if ltb (length r) (size - 8)
    then (inl (if length r == 0 then eof else unexpected_eof), [])
    else (inr (t0 ∷ t1 ∷ t2 ∷ t3 ∷ [], take (size - 8) r), drop (size - 8) r)
read_box _ = (inl unexpected_eof, [])

-- `parseMoofMdat`, on the stream after the moof box; `sort` is `sort.Slice` by DTS. The result is the
-- tracks, an error or the packets, and what is left of the stream.
unfoldable pub parse_moof_mdat :
    (List Packet → List Packet)
    → List TrackDef
    → List ℕ
    → ℤ
    → ℤ
    → List ℕ
    → List TrackDef × (ReadError ⊎ List Packet) × List ℕ
unfolding parse_moof packets_of read_box
parse_moof_mdat sort defs moof moof_start moof_size stream =
    let (defs', samples) = parse_moof defs moof moof_start moof_size in
    elim samples [
      | none ↦ (defs', inl malformed, stream)
      | some raw ↦
          let (box, rest) = read_box stream in
          elim box [
            | inl e ↦ (defs', inl e, rest)
            | inr (typ, mdat) ↦
                if same_bytes typ (codes "mdat")
                then (defs', inr (sort (packets_of defs' mdat raw)), rest)
                else (defs', inl malformed, rest)
          ]
    ]
