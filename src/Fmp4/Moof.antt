-- ===== src/Fmp4/Moof.antt =====
-- av/format/fmp4/demuxer.go: how a fragment is read.
-- `tracksByID` is a list with one track of an id. The default of a field and what is left of the
-- payload go from a read to the next one.
pub mod RoundTrip
pub mod Media
pub mod Boxes
pub mod Tracks
pub mod Samples
pub mod Fits
pub mod Traf
use vrtc_sdk.Prelude.{
  ℕ, zero, suc, ◌+◌, ◌-◌, ◌*◌, ◌/◌, ◌%◌, ◌^◌, Bool, true, false, not, ◌||◌, Option, none, some,
  ◌>>=◌, List, [], ◌∷◌, ◌++◌,
}
use vrtc_sdk.Prelude.{ltb, ◌==◌, if◌then◌else◌, length, take, drop, bit_and, ◌⊎◌, inl, inr}
use vrtc_sdk.Prelude.Int.{
  ℤ, pos, negsuc, ltb_ℤ, add64, sub64, scale64, quot, to_int32, of_uint64, pos_part,
}
use vrtc_sdk.Prelude.Endian.{codes, word32, get32, get64, same_bytes}
use vrtc_sdk.Av.{CodecData, Packet}
use vrtc_sdk.Fmp4.Box.{find_box, find_boxes}

-- `trackDef`.
pub record TrackDef : Type 0 where
  pub id : ℕ
  pub stream_idx : ℕ
  pub timescale : ℕ
  pub codec : CodecData
  pub has_video : Bool
  pub def_duration : ℕ
  pub def_size : ℕ
  pub def_flags : ℕ

-- `rawSample`.
pub record RawSample : Type 0 where
  pub track_id : ℕ
  pub dts : ℤ
  pub cts : ℤ
  pub duration : ℕ
  pub flags : ℕ
  pub mdat_off : ℤ
  pub size : ℕ

-- `tfhdResult`.
pub record TfhdResult : Type 0 where
  pub track_id : ℕ
  pub flags : ℕ
  pub base_data_offset : ℤ
  pub def_duration : ℕ
  pub def_size : ℕ
  pub def_flags : ℕ

-- `tracksByID[id]`.
unfoldable pub find_def : ℕ → List TrackDef → Option TrackDef
find_def id [] = none
find_def id (d ∷ ds) = if d.id == id then some d else find_def id ds

-- `tracksByID[track.id] = track`.
unfoldable pub put_def : TrackDef → List TrackDef → List TrackDef
put_def d [] = d ∷ []
put_def d (e ∷ es) = let later = put_def d es in if e.id == d.id then d ∷ es else e ∷ later

abbrev pub has_flag : ℕ → ℕ → Bool
has_flag flags bit = not (bit_and flags bit == 0)

-- A field of four bytes that is there or not.
unfoldable pub read_field : Bool → ℕ → List ℕ → Option (ℕ × List ℕ)
read_field false default r = some (default, r)
read_field true default (a ∷ b ∷ c ∷ d ∷ r) = some (word32 a b c d, r)
read_field true default _ = none

unfoldable pub read_offset : Bool → ℤ → List ℕ → Option (ℤ × List ℕ)
read_offset false default r = some (default, r)
read_offset true default r = get64 r >>= λ v. some (of_uint64 v, drop 8 r)

-- `parseTfhd`.
unfoldable pub parse_tfhd : List ℕ → ℤ → Option TfhdResult
unfolding read_field read_offset
parse_tfhd (version ∷ f2 ∷ f1 ∷ f0 ∷ i3 ∷ i2 ∷ i1 ∷ i0 ∷ r) moof_start =
    let flags = f2 * 2 ^ 16 + f1 * 2 ^ 8 + f0 in
    do
      base ← read_offset (has_flag flags 0x1) moof_start r
      let indexed = if has_flag flags 0x2 then drop 4 base.1 else base.1
      duration ← read_field (has_flag flags 0x8) 0 indexed
      size ← read_field (has_flag flags 0x10) 0 duration.1
      sample_flags ← read_field (has_flag flags 0x20) 0 size.1
      some (record {
        track_id = word32 i3 i2 i1 i0;
        flags = flags;
        base_data_offset = base.0;
        def_duration = duration.0;
        def_size = size.0;
        def_flags = sample_flags.0;
      })
parse_tfhd _ moof_start = none

-- `parseTfdt`.
unfoldable pub parse_tfdt : List ℕ → Option ℤ
parse_tfdt (version ∷ f2 ∷ f1 ∷ f0 ∷ r) =
    if version == 0 then (get32 r >>= λ t. some (pos t)) else (get64 r >>= λ t. some (of_uint64 t))
parse_tfdt _ = none

-- The loop of `parseTrun`; `sflags` is the default of the next sample.
unfoldable pub parse_samples : ℕ → ℕ → TrackDef → ℕ → ℤ → ℤ → List ℕ → Option (List RawSample)
unfolding read_field
parse_samples zero flags track sflags dts off r = some []
parse_samples (suc n) flags track sflags dts off r = do
  duration ← read_field (has_flag flags 0x100) track.def_duration r
  size ← read_field (has_flag flags 0x200) track.def_size duration.1
  sample_flags ← read_field (has_flag flags 0x400) sflags size.1
  cts ← read_field (has_flag flags 0x800) 0 sample_flags.1
  later ←
      parse_samples n flags track track.def_flags (add64 dts (pos duration.0))
        (add64 off (pos size.0)) cts.1
  some (
      record {
        track_id = track.id;
        dts = dts;
        cts = to_int32 (pos cts.0);
        duration = duration.0;
        flags = sample_flags.0;
        mdat_off = off;
        size = size.0;
      }
      ∷ later)

-- `parseTrun`.
unfoldable pub parse_trun : List ℕ → TrackDef → ℤ → ℤ → ℤ → Option (List RawSample)
unfolding read_field parse_samples
parse_trun (version ∷ f2 ∷ f1 ∷ f0 ∷ c3 ∷ c2 ∷ c1 ∷ c0 ∷ r) track base_dts base_off mdat_base =
    let flags = f2 * 2 ^ 16 + f1 * 2 ^ 8 + f0 in
    do
      offset ← read_field (has_flag flags 0x1) 0 r
      first ← read_field (has_flag flags 0x4) track.def_flags offset.1
      parse_samples (word32 c3 c2 c1 c0) flags track first.0 base_dts
          (sub64 (add64 base_off (to_int32 (pos offset.0))) mdat_base) first.1
parse_trun _ track base_dts base_off mdat_base = none

unfoldable pub add_durations : ℤ → List RawSample → ℤ
add_durations dts [] = dts
add_durations dts (s ∷ r) = add_durations (add64 dts (pos s.duration)) r

-- The truns of a traf.
unfoldable pub parse_truns : List (List ℕ) → TrackDef → ℤ → ℤ → ℤ → Option (List RawSample)
unfolding parse_trun add_durations
parse_truns [] track base_dts base_off mdat_base = some []
parse_truns (trun ∷ truns) track base_dts base_off mdat_base = do
  samples ← parse_trun trun track base_dts base_off mdat_base
  later ← parse_truns truns track (add_durations base_dts samples) base_off mdat_base
  some (samples ++ later)

-- The defaults that a tfhd gives to its track.
unfoldable pub take_defaults : TfhdResult → TrackDef → TrackDef
take_defaults res d = record d {
  def_duration = if has_flag res.flags 0x8 then res.def_duration else d.def_duration;
  def_size = if has_flag res.flags 0x10 then res.def_size else d.def_size;
  def_flags = if has_flag res.flags 0x20 then res.def_flags else d.def_flags;
}

-- The part of `parseMoof` that reads the samples of a traf: the tfdt and the truns.
unfoldable pub traf_samples : List ℕ → TfhdResult → TrackDef → ℤ → Option (List RawSample)
unfolding parse_tfdt parse_truns
traf_samples traf res track mdat_base = elim (find_box traf (codes "tfdt")) [
  | none ↦ parse_truns (find_boxes traf (codes "trun")) track (pos 0) res.base_data_offset mdat_base
  | some tfdt ↦ do
    base ← parse_tfdt tfdt
    parse_truns (find_boxes traf (codes "trun")) track base res.base_data_offset mdat_base
]

-- A round of `parseMoof`: the tracks and the samples; none is an error, which ends the loop.
unfoldable pub parse_traf : List TrackDef → List ℕ → ℤ → ℤ → List TrackDef × Option (List RawSample)
unfolding parse_tfhd find_def put_def take_defaults traf_samples
parse_traf defs traf moof_start mdat_base =
    let header = find_box traf (codes "tfhd") >>= λ tfhd. parse_tfhd tfhd moof_start in
    elim header [
      | none ↦ (defs, some [])
      | some res ↦ elim (find_def res.track_id defs) [
        | none ↦ (defs, some [])
        | some d ↦
            let track = take_defaults res d in
            (put_def track defs, traf_samples traf res track mdat_base)
      ]
    ]

unfoldable pub parse_trafs :
    List TrackDef → List (List ℕ) → ℤ → ℤ → List TrackDef × Option (List RawSample)
unfolding parse_traf
parse_trafs defs [] moof_start mdat_base = (defs, some [])
parse_trafs defs (traf ∷ trafs) moof_start mdat_base =
    let (defs', samples) = parse_traf defs traf moof_start mdat_base in
    let (defs'', later) = parse_trafs defs' trafs moof_start mdat_base in
    elim samples [ none ↦ (defs', none) | some s ↦ (defs'', later >>= λ r. some (s ++ r)) ]

-- `parseMoof`.
unfoldable pub parse_moof : List TrackDef → List ℕ → ℤ → ℤ → List TrackDef × Option (List RawSample)
unfolding parse_trafs
parse_moof defs payload moof_start moof_size =
    parse_trafs defs (find_boxes payload (codes "traf")) moof_start
      (add64 (add64 moof_start moof_size) (pos 8))
