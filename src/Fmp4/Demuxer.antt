-- ===== src/Fmp4/Demuxer.antt =====
-- av/format/fmp4/demuxer.go: the demuxer, `GetCodecs` and `ReadPacket`.
-- Parameters: `codec_of` makes the codec data of a sample entry, `sort` is `sort.Slice` by DTS, `json`
-- is `json.Unmarshal` into the analytics.
pub mod RoundTrip
pub mod Seek
mod Tests
use vrtc_sdk.Prelude.{
  ℕ, zero, suc, ◌+◌, ◌-◌, ◌*◌, ◌/◌, ◌%◌, ◌^◌, Bool, true, false, not, ◌||◌, ◌&&◌, Option, none,
  some, ◌>>=◌, List, [], ◌∷◌, ◌++◌,
}
use vrtc_sdk.Prelude.{ltb, ◌==◌, if◌then◌else◌, length, take, drop, ◌⊎◌, inl, inr}
use vrtc_sdk.Prelude.Int.{ℤ, pos, ltb_ℤ, add64, scale64, quot, of_uint64}
use vrtc_sdk.Prelude.Endian.{codes, word16, word32, get16, get32, get64, same_bytes}
use vrtc_sdk.Av.{CodecData, Packet, Stream}
use vrtc_sdk.Fmp4.Box.{find_box, find_boxes}
use vrtc_sdk.Fmp4.Stsd.{SampleEntry, avc, hevc, mp4a, flac_entry, parse_stsd_entry}
use vrtc_sdk.Fmp4.Moof.{TrackDef, put_def, parse_tfdt, find_def}
use vrtc_sdk.Fmp4.Mdat.{ticks_to_duration, ReadError, eof, malformed, read_box, parse_moof_mdat}
use vrtc_sdk.Fmp4.Emsg.{EmsgEntry, parse_emsg}
use vrtc_sdk.Fmp4.Sidx.{SidxEntry, parse_sidx}
use vrtc_sdk.Fmp4.Moov.{parse_moov}

-- `Demuxer`: what is left of the stream and how much of it was read, and the state.
pub record Demuxer : Type 0 where
  pub stream : List ℕ
  pub position : ℕ
  pub tracks : List TrackDef
  pub streams : List Stream
  pub pending : List Packet
  pub pending_codec_change : List Stream
  pub pending_emsg : List EmsgEntry
  pub media_start : ℕ
  pub sidx : List SidxEntry

-- `NewDemuxer`.
unfoldable pub new_demuxer : List ℕ → Demuxer
new_demuxer stream = record {
  stream = stream;
  position = 0;
  tracks = [];
  streams = [];
  pending = [];
  pending_codec_change = [];
  pending_emsg = [];
  media_start = 0;
  sidx = [];
}

-- The first emsg of a packet gives it the analytics, if they can be read.
unfoldable pub match_emsg : (List ℕ → Option ℕ) → ℤ → List EmsgEntry → Option ℕ
match_emsg json ms [] = none
match_emsg json ms (e ∷ es) =
    let later = match_emsg json ms es in
    if not (ltb_ℤ e.present_time_ms ms)
      && not (ltb_ℤ ms e.present_time_ms)
      && same_bytes e.scheme_id_uri (codes "urn:vtpl:analytics:1")
    then json e.body
    else later

unfoldable pub attach : (List ℕ → Option ℕ) → List EmsgEntry → List Packet → List Packet
unfolding match_emsg
attach json es [] = []
attach json es (p ∷ ps) = elim (match_emsg json (quot (add64 p.dts p.pts_offset) (10 ^ 6)) es) [
  | none ↦ p ∷ attach json es ps
  | some a ↦ record p { analytics = some a } ∷ attach json es ps
]

-- The codec change goes to the first packet.
unfoldable pub announce : List Stream → List Packet → List Stream × List Packet
announce [] ps = ([], ps)
announce (c ∷ cs) [] = (c ∷ cs, [])
announce (c ∷ cs) (p ∷ ps) = ([], record p { new_codecs = some (c ∷ cs) } ∷ ps)

-- The state when there is `rest` left of the stream.
unfoldable pub advance : Demuxer → List ℕ → Demuxer
advance d rest = record d { stream = rest; position = d.position + (length d.stream - length rest) }

-- The packets of a fragment become the pending ones.
unfoldable pub load : (List ℕ → Option ℕ) → Demuxer → List Packet → Demuxer
unfolding attach announce
load json d pkts =
    let (change, announced) = announce d.pending_codec_change pkts in
    record d {
      pending_codec_change = change;
      pending = attach json d.pending_emsg announced;
      pending_emsg = [];
    }

-- The case "moof" of `ReadPacket`: the state before the box was read, its payload, and what comes
-- after it.
unfoldable pub on_moof :
    (List Packet → List Packet)
    → (List ℕ → Option ℕ)
    → Demuxer
    → List ℕ
    → List ℕ
    → Option ReadError × Demuxer
unfolding parse_moof_mdat load advance
on_moof sort json d payload rest =
    let (tracks, found, after) =
      parse_moof_mdat sort d.tracks payload (pos d.position) (pos (8 + length payload)) rest in
    let next = record (advance d after) { tracks = tracks } in
    elim found [ inl e ↦ (some e, next) | inr pkts ↦ (none, load json next pkts) ]

-- The other boxes.
unfoldable pub on_box : (SampleEntry → Option CodecData) → Demuxer → List ℕ → List ℕ → Demuxer
unfolding parse_moov parse_emsg parse_sidx
on_box codec_of d typ payload =
    if same_bytes typ (codes "moov")
    then (let (tracks, streams) = parse_moov codec_of payload in
        record d { tracks = tracks; streams = streams; pending_codec_change = streams })
    else if same_bytes typ (codes "emsg")
    then elim (parse_emsg payload) [
      | none ↦ d
      | some e ↦ record d { pending_emsg = d.pending_emsg ++ (e ∷ []) }
    ]
    else if same_bytes typ (codes "sidx")
    then elim (parse_sidx payload (pos d.media_start)) [
      | none ↦ d
      | some es ↦ record d { sidx = es }
    ]
    else d

module _ (codec_of : SampleEntry → Option CodecData) (sort : List Packet → List Packet)
    (json : List ℕ → Option ℕ) where
  -- `ReadPacket`; each round takes a pending packet or eight bytes.
  unfoldable pub read_packet : ℕ → Demuxer → (ReadError ⊎ Packet) × Demuxer
  unfolding on_moof on_box advance read_box
  read_packet zero d = (inl eof, d)
  read_packet (suc fuel) d = elim d.pending [
    | p ∷ ps ↦ (inr p, record d { pending = ps })
    | [] ↦
        let (box, rest) = read_box d.stream in
        elim box [
          | inl e ↦ (inl e, advance d rest)
          | inr (typ, payload) ↦
              let (error, next) =
                if same_bytes typ (codes "moof")
                then on_moof sort json d payload rest
                else (none, on_box codec_of (advance d rest) typ payload) in
              let later = read_packet fuel next in
              elim error [ none ↦ later | some e ↦ (inl e, next) ]
        ]
  ]

-- `GetCodecs`; the end of the stream is `ErrNoMoovBox`, here `malformed`.
unfoldable pub get_codecs :
    (SampleEntry → Option CodecData) → ℕ → Demuxer → (ReadError ⊎ List Stream) × Demuxer
unfolding parse_moov advance read_box
get_codecs codec_of zero d = (inl malformed, d)
get_codecs codec_of (suc fuel) d =
    let (box, rest) = read_box d.stream in
    let next = advance d rest in
    let later = get_codecs codec_of fuel next in
    elim box [
      | inl eof ↦ (inl malformed, next)
      | inl e ↦ (inl e, next)
      | inr (typ, payload) ↦
          if same_bytes typ (codes "moov")
          then (let (tracks, streams) = parse_moov codec_of payload in
              (
                inr streams,
                record next { tracks = tracks; streams = streams; media_start = next.position },
              ))
          else later
    ]
