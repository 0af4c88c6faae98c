-- ===== src/Fmp4/Moof/Samples.antt =====
-- How the entries of a trun are read again.
use vrtc_sdk.Prelude.{
  ℕ, suc, ◌+◌, ◌^◌, ◌<◌, ◌≡◌, refl, Bool, true, false, some, List, [], ◌∷◌, arith,
}
use vrtc_sdk.Prelude.{length, if◌then◌else◌, All}
use vrtc_sdk.Prelude.Int.{
  ℤ, pos, add64, add64_pos, to_int32, to_uint32, IsInt32, to_int32-to_uint32, to_int32_pos,
}
use vrtc_sdk.Prelude.Endian.{put32}
use vrtc_sdk.Fmp4.Track.{Sample}
use vrtc_sdk.Fmp4.Fragment.{trun_entries, trun_flags, sizes_of}
use vrtc_sdk.Fmp4.Moof.{TrackDef, RawSample, read_field, parse_samples, has_flag}

-- What the reader finds of the samples: the flags and the offset of an audio sample are not written.
abbrev pub raw_of : ℕ → Bool → ℤ → ℕ → Sample → RawSample
raw_of id video dts off s = record {
  track_id = id;
  dts = dts;
  cts = if video then s.pts_offset else pos 0;
  duration = s.duration;
  flags = if video then s.flags else 0;
  mdat_off = pos off;
  size = length s.body;
}

unfoldable pub raws_of : ℕ → Bool → ℤ → ℕ → List Sample → List RawSample
raws_of id video dts off [] = []
raws_of id video dts off (s ∷ r) =
    raw_of id video dts off s
    ∷ raws_of id video (add64 dts (pos s.duration)) (off + length s.body) r

-- A sample whose fields have the widths of the code.
abbrev pub FitsSample : Sample → Type 0
FitsSample s = (s.duration < 2 ^ 32) × (s.flags < 2 ^ 32) × IsInt32 s.pts_offset

pub read_field-put32 :
    (d v : ℕ) (r : List ℕ) → v < 2 ^ 32 → read_field true d (put32 v r) ≡ some (v, r)
unfolding read_field
read_field-put32 d v r h = ground arith

-- A round of the loop, from its reads.
sample_step :
    (n flags : ℕ) (track : TrackDef) (sflags : ℕ) (dts : ℤ) (off : ℤ) (r : List ℕ)
    (a b c d : ℕ × List ℕ) (cts next : ℤ) (later : List RawSample)
    → read_field (has_flag flags 0x100) track.def_duration r ≡ some a
    → read_field (has_flag flags 0x200) track.def_size a.1 ≡ some b
    → read_field (has_flag flags 0x400) sflags b.1 ≡ some c
    → read_field (has_flag flags 0x800) 0 c.1 ≡ some d
    → to_int32 (pos d.0) ≡ cts
    → add64 off (pos b.0) ≡ next
    → parse_samples n flags track track.def_flags (add64 dts (pos a.0)) next d.1 ≡ some later
    → parse_samples (suc n) flags track sflags dts off r
      ≡ some (
          record {
            track_id = track.id;
            dts = dts;
            cts = cts;
            duration = a.0;
            flags = c.0;
            mdat_off = off;
            size = b.0;
          }
          ∷ later)
unfolding parse_samples
sample_step n flags track sflags dts off r a b c d cts next later ha hb hc hd e f hl =
    rw (ha, hb, hc, hd, e, f, hl)

parse_samples-zero :
    (flags : ℕ) (track : TrackDef) (sflags : ℕ) (dts off : ℤ) (r : List ℕ)
    → parse_samples 0 flags track sflags dts off r ≡ some []
unfolding parse_samples
parse_samples-zero flags track sflags dts off r = refl

pub parse_samples-trun_entries :
    (track : TrackDef) (video : Bool) (s : List Sample) (sflags : ℕ) (dts : ℤ) (off : ℕ)
    → track.def_flags ≡ 0
    → sflags ≡ 0
    → All FitsSample s
    → off + sizes_of s < 2 ^ 31
    → parse_samples (length s) (trun_flags video) track sflags dts (pos off) (trun_entries video s)
      ≡ some (raws_of track.id video dts off s)
unfolding trun_flags trun_entries raws_of sizes_of read_field
parse_samples-trun_entries track video [] sflags dts off e k f h =
    parse_samples-zero (trun_flags video) track sflags dts (pos off) []
parse_samples-trun_entries track true (x ∷ s) sflags dts off e k f h =
    let cts = to_int32-to_uint32 x.pts_offset f.0.2 in
    let bs = put32 (to_uint32 x.pts_offset) (trun_entries true s) in
    let cs = put32 x.flags bs in
    let ds = put32 (length x.body) cs in
    sample_step (length s) 0xf01 track sflags dts (pos off) (put32 x.duration ds) (x.duration, ds)
      (length x.body, cs) (x.flags, bs) (to_uint32 x.pts_offset, trun_entries true s) x.pts_offset
      (pos (off + length x.body))
      (raws_of track.id true (add64 dts (pos x.duration)) (off + length x.body) s)
      (read_field-put32 track.def_duration x.duration ds f.0.0)
      (read_field-put32 track.def_size (length x.body) cs (omega arith))
      (read_field-put32 sflags x.flags bs f.0.1)
      (read_field-put32 0 (to_uint32 x.pts_offset) (trun_entries true s) cts.1) cts.0
      (add64_pos off (length x.body) (omega arith))
      (parse_samples-trun_entries track true s track.def_flags _ _ e e f.1 (omega arith))
parse_samples-trun_entries track false (x ∷ s) sflags dts off e k f h =
    let bs = trun_entries false s in
    let cs = put32 (length x.body) bs in
    sample_step (length s) 0x301 track sflags dts (pos off) (put32 x.duration cs) (x.duration, cs)
      (length x.body, bs) (0, bs) (0, bs) (pos 0) (pos (off + length x.body))
      (raws_of track.id false (add64 dts (pos x.duration)) (off + length x.body) s)
      (read_field-put32 track.def_duration x.duration cs f.0.0)
      (read_field-put32 track.def_size (length x.body) bs (omega arith)) (rw k) refl
      (to_int32_pos 0 (omega arith)) (add64_pos off (length x.body) (omega arith))
      (parse_samples-trun_entries track false s track.def_flags _ _ e e f.1 (omega arith))
