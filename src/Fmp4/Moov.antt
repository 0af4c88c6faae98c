-- ===== src/Fmp4/Moov.antt =====
-- av/format/fmp4/demuxer.go: how the tracks of a moov are read. `codec_of` makes the codec data of a sample entry.
use vrtc_sdk.Prelude.{ℕ, ◌+◌, ◌%◌, ◌^◌, Bool, true, false, Option, none, some, ◌>>=◌, List, [], ◌∷◌}
use vrtc_sdk.Prelude.{ltb, ◌==◌, if◌then◌else◌, length, take, drop}
use vrtc_sdk.Prelude.Endian.{codes, get32}
use vrtc_sdk.Av.{CodecData, Stream}
use vrtc_sdk.Fmp4.Box.{find_box, find_boxes}
use vrtc_sdk.Fmp4.Stsd.{SampleEntry, avc, hevc, mp4a, flac_entry, parse_stsd_entry}
use vrtc_sdk.Fmp4.Moof.{TrackDef, put_def}

-- `parseTkhdTrackID`; `parseMdhdTimescale` has the same statements.
unfoldable pub parse_tkhd_track_id : List ℕ → Option ℕ
parse_tkhd_track_id (version ∷ f2 ∷ f1 ∷ f0 ∷ r) =
    if version == 0 then get32 (drop 8 r) else get32 (drop 16 r)
parse_tkhd_track_id _ = none

unfoldable pub parse_mdhd_timescale : List ℕ → Option ℕ
parse_mdhd_timescale (version ∷ f2 ∷ f1 ∷ f0 ∷ r) =
    if version == 0 then get32 (drop 8 r) else get32 (drop 16 r)
parse_mdhd_timescale _ = none

-- `parseHdlrType`; its result is not used.
unfoldable pub parse_hdlr_type : List ℕ → Option (List ℕ)
parse_hdlr_type p = if ltb (length p) 12 then none else some (take 4 (drop 8 p))

-- Whether `parseStsdEntry` says that a track has video.
unfoldable pub is_picture : SampleEntry → Bool
is_picture (avc c) = true
is_picture (hevc c) = true
is_picture (mp4a c) = false
is_picture (flac_entry rate layout) = false

-- `parseTrak`; none is an error.
unfoldable pub parse_trak : (SampleEntry → Option CodecData) → List ℕ → Option TrackDef
unfolding is_picture parse_stsd_entry parse_tkhd_track_id parse_mdhd_timescale parse_hdlr_type
parse_trak codec_of payload = do
  tkhd ← find_box payload (codes "tkhd")
  id ← parse_tkhd_track_id tkhd
  mdia ← find_box payload (codes "mdia")
  mdhd ← find_box mdia (codes "mdhd")
  timescale ← parse_mdhd_timescale mdhd
  hdlr ← find_box mdia (codes "hdlr")
  handler ← parse_hdlr_type hdlr
  minf ← find_box mdia (codes "minf")
  stbl ← find_box minf (codes "stbl")
  stsd ← find_box stbl (codes "stsd")
  found ← if ltb (length stsd) 8 then none else parse_stsd_entry (drop 8 stsd)
  codec ← codec_of found
  some (record {
    id = id;
    stream_idx = 0;
    timescale = timescale;
    codec = codec;
    has_video = is_picture found;
    def_duration = 0;
    def_size = 0;
    def_flags = 0;
  })

-- The loops of `parseMoov`: the traks that are read, and the tables of tracks and streams.
unfoldable pub parse_traks : (SampleEntry → Option CodecData) → List (List ℕ) → List TrackDef
unfolding parse_trak
parse_traks codec_of [] = []
parse_traks codec_of (p ∷ ps) = elim (parse_trak codec_of p) [
  | none ↦ parse_traks codec_of ps
  | some d ↦ d ∷ parse_traks codec_of ps
]

unfoldable pub declare : ℕ → List TrackDef → List TrackDef → List TrackDef × List Stream
unfolding put_def
declare i [] defs = (defs, [])
declare i (d ∷ ds) defs =
    let (all, streams) = declare (i + 1) ds (put_def (record d { stream_idx = i % 2 ^ 16 }) defs) in
    (all, record { idx = i % 2 ^ 16; codec = d.codec } ∷ streams)

-- `parseMoov`.
unfoldable pub parse_moov : (SampleEntry → Option CodecData) → List ℕ → List TrackDef × List Stream
unfolding parse_traks declare
parse_moov codec_of payload =
    declare 0 (parse_traks codec_of (find_boxes payload (codes "trak"))) []
