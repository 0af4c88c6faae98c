-- ===== src/Fmp4/Muxer.antt =====
-- av/format/fmp4/muxer.go: Muxer, from packets to fragments.
-- What goes to the writer is a list of init segments and fragments, with the tracks and samples that
-- they are built from. Their bytes are those of Fmp4.Fragment; the index for the sidx box is left out. The
-- writer's answer to the writes of one call enters as `disk`: they all succeed or the call fails.
pub mod Conserve
pub mod Written
use vrtc_sdk.Prelude.{
  ℕ, ◌+◌, ◌*◌, ◌%◌, ◌^◌, Bool, true, false, not, ◌&&◌, ◌||◌, Option, none, some, List, [], ◌∷◌,
  ◌++◌,
}
use vrtc_sdk.Prelude.{ltb, ◌==◌, if◌then◌else◌, length}
use vrtc_sdk.Prelude.Int.{ℤ, pos, ltb_ℤ, add64, sub64}
use vrtc_sdk.Av.{Packet}
use vrtc_sdk.Fmp4.Track.{
  Codec, Track, new_tracks, change_tracks, has_any_samples, has_video_tracks, find_track,
  update_track, patch_tracks, active, clear_tracks, count_emsg, append_sample,
}

pub data Error : Type 0 where
  header_already_written trailer_already_written unsupported_codec : Error
  header_not_written write_failed : Error

-- A fragment has its sequence number, the first id of its emsg boxes, and its tracks.
pub data Output : Type 0 where
  init_segment : List Track → Output
  fragment : ℕ → ℕ → List Track → Output

-- `dts_offset` and `last_video_dts` are none until they are set. `tracks` is in the order of
-- `WriteHeader`, and `trackMap` has the last track of a stream.
pub record Muxer : Type 0 where
  pub tracks : List Track
  pub seq_num : ℕ
  pub emsg_id : ℕ
  pub written : Bool
  pub closed : Bool
  pub dts_offset : Option ℤ
  pub waiting_for_keyframe : Bool
  pub first_fragment_flushed : Bool
  pub last_video_dts : Option ℤ
  pub fragment_gaps : List (ℕ × ℤ)
  pub output : List Output

unfoldable pub new_muxer : Muxer
new_muxer = record {
  tracks = [];
  seq_num = 0;
  emsg_id = 0;
  written = false;
  closed = false;
  dts_offset = none;
  waiting_for_keyframe = false;
  first_fragment_flushed = false;
  last_video_dts = none;
  fragment_gaps = [];
  output = [];
}

unfoldable pub flush_fragment : Muxer → Bool → Option Error × Muxer
flush_fragment m disk =
    let seq = (m.seq_num + 1) % 2 ^ 32 in
    let tracks = patch_tracks m.tracks in
    let next_id = (m.emsg_id + count_emsg tracks) % 2 ^ 32 in
    if not (has_any_samples m.tracks)
    then (none, record m { seq_num = seq })
    else if not disk
    then (some write_failed, record m { seq_num = seq; emsg_id = next_id; tracks = tracks })
    else (
      none,
      record m {
        seq_num = seq;
        emsg_id = next_id;
        tracks = clear_tracks tracks;
        output = m.output ++ (fragment seq m.emsg_id (active tracks) ∷ []);
      },
    )

-- The packets that are dropped before the first video key frame.
unfoldable pub is_awaited : Muxer → Track → Packet → Bool
is_awaited m ts pkt = not m.waiting_for_keyframe || (ts.has_video && pkt.key_frame)

-- A gap is longer than 500 ms or negative; at most 100 are kept.
unfoldable pub gap_since : Muxer → ℤ → Option ℤ → Muxer
gap_since m dts none = m
gap_since m dts (some last) =
    let gap = sub64 dts last in
    if (ltb_ℤ gap (pos 0) || ltb_ℤ (pos (500 * 10 ^ 6)) gap) && ltb (length m.fragment_gaps) 100
    then record m { fragment_gaps = m.fragment_gaps ++ ((m.seq_num, gap) ∷ []) }
    else m

unfoldable pub note_gap : Muxer → ℤ → Muxer
note_gap m dts = gap_since m dts m.last_video_dts

-- A video key frame flushes the pending samples.
unfoldable pub flush_at_key : Muxer → Track → Packet → Bool → Option Error × Muxer
flush_at_key m ts pkt disk =
    let (e, m') = flush_fragment m disk in
    if ts.has_video && pkt.key_frame && has_any_samples m.tracks
    then elim e [
      | some x ↦ (some x, m')
      | none ↦ (none, note_gap (record m' { first_fragment_flushed = true }) pkt.dts)
    ]
    else (none, m)

-- The flushes after a sample: every packet without video, and the first fragment early.
unfoldable pub flush_after : Muxer → Track → Packet → Bool → Option Error × Muxer
flush_after m ts pkt disk =
    if not (has_video_tracks m.tracks)
    then flush_fragment m disk
    else if not m.first_fragment_flushed
        && ts.has_video
        && not pkt.key_frame
        && has_any_samples m.tracks
    then flush_fragment (record m { first_fragment_flushed = true }) disk
    else (none, m)

-- `WritePacket` from the flush on, with a DTS that is relative to `offset`.
unfoldable pub write_normal : Muxer → Track → Packet → ℤ → Bool → Option Error × Muxer
write_normal m ts p offset disk =
    let (e, m1) = flush_at_key m ts p disk in
    let m2 = record m1 {
      tracks = update_track p.idx (append_sample p) m1.tracks;
      last_video_dts = if ts.has_video then some (add64 p.dts offset) else m1.last_video_dts;
    } in
    elim e [ some x ↦ (some x, m1) | none ↦ flush_after m2 ts p disk ]

-- `WritePacket` from the guards on, with the track of the packet.
unfoldable pub write_sample : Muxer → Track → Packet → Bool → Option Error × Muxer
write_sample m ts pkt disk =
    let offset = elim m.dts_offset as (λ _. ℤ) [ none ↦ pkt.dts | some o ↦ o ] in
    write_normal (record m { waiting_for_keyframe = false; dts_offset = some offset }) ts
      (record pkt { dts = sub64 pkt.dts offset }) offset disk

unfoldable pub write_packet : Muxer → Packet → Bool → Option Error × Muxer
write_packet m pkt disk =
    if not m.written
    then (some header_not_written, m)
    else if m.closed
    then (some trailer_already_written, m)
    else elim (find_track pkt.idx m.tracks) [
      | none ↦ (none, m)
      | some ts ↦ if is_awaited m ts pkt then write_sample m ts pkt disk else (none, m)
    ]

unfoldable pub write_header : Muxer → List (ℕ × Codec) → Bool → Option Error × Muxer
write_header m streams disk =
    let tracks = m.tracks ++ new_tracks streams 1 in
    if m.written
    then (some header_already_written, m)
    else if length tracks == 0
    then (some unsupported_codec, m)
    else if not disk
    then (some write_failed, record m { tracks = tracks })
    else (
      none,
      record m {
        tracks = tracks;
        written = true;
        waiting_for_keyframe = has_video_tracks tracks;
        output = m.output ++ (init_segment tracks ∷ []);
      },
    )

unfoldable pub flush : Muxer → Bool → Option Error × Muxer
flush m disk =
    if m.closed || not m.written
    then (none, m)
    else if has_any_samples m.tracks
    then flush_fragment m disk
    else (none, m)

unfoldable pub write_trailer : Muxer → Bool → Option Error × Muxer
write_trailer m disk =
    let m' = record m { closed = true } in
    if m.closed
    then (some trailer_already_written, m)
    else if has_any_samples m.tracks
    then flush_fragment m' disk
    else (none, m')

unfoldable pub write_codec_change : Muxer → List (ℕ × Codec) → Bool → Option Error × Muxer
write_codec_change m changed disk =
    let (e, m1) = flush m disk in
    let (e', tracks) = change_tracks changed m1.tracks in
    let m2 = record m1 { tracks = tracks } in
    if not m.written || m.closed then (none, m) else elim e [
      | some x ↦ (some x, m1)
      | none ↦
          if e'
          then (some unsupported_codec, m2)
          else if disk
          then (none, record m2 { output = m2.output ++ (init_segment tracks ∷ []) })
          else (some write_failed, m2)
    ]
