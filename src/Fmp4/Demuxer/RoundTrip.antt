-- ===== src/Fmp4/Demuxer/RoundTrip.antt =====
-- `ReadPacket` on a fragment that the muxer wrote.
use vrtc_sdk.Prelude.{
  ℕ, suc, ◌+◌, ◌-◌, ◌^◌, ◌<◌, ◌≡◌, refl, ap, sym, ◌∙◌, false, Option, none, some, List, [], ◌∷◌,
  ◌++◌, arith, ◌⊎◌, inl, inr,
}
use vrtc_sdk.Prelude.{
  length, ◌==◌, if◌then◌else◌, ltb, All, take, drop, length-append, take-length_append,
  drop-length_append,
}
use vrtc_sdk.Prelude.Int.{pos}
use vrtc_sdk.Prelude.Endian.{codes}
use vrtc_sdk.Av.{Packet, CodecData}
use vrtc_sdk.Fmp4.Track.{Track}
use vrtc_sdk.Fmp4.Box.{make_box}
use vrtc_sdk.Fmp4.Box.Find.{length-make_box}
use vrtc_sdk.Fmp4.Fragment.{
  sample_bytes, trafs_size, build_moof, build_mdat, track_bytes, estimate_moof_size,
}
use vrtc_sdk.Fmp4.Fragment.Size.{length-build_moof, length-sample_bytes}
use vrtc_sdk.Fmp4.Stsd.{SampleEntry}
use vrtc_sdk.Fmp4.Moof.{TrackDef, RawSample, parse_moof}
use vrtc_sdk.Fmp4.Mdat.{
  ReadError, eof, unexpected_eof, malformed, read_box, parse_moof_mdat, packets_of,
}
use vrtc_sdk.Fmp4.Moof.Tracks.{
  IsDeclared, FitsTrack, raws, media_size, moof_payload, parse_moof-moof_payload,
}
use vrtc_sdk.Fmp4.Moof.RoundTrip.{demuxed, packets_of-raws}
use vrtc_sdk.Fmp4.Demuxer.{Demuxer, advance, load, on_moof, read_packet}

open_read :
    (w : ℕ) (t p r : List ℕ)
    → w ≡ 8 + length p
    → if◌then◌else◌ {A = (ReadError ⊎ (List ℕ × List ℕ)) × List ℕ}
        (ltb w 8)
        (inl malformed, p ++ r)
        (if◌then◌else◌ {A = (ReadError ⊎ (List ℕ × List ℕ)) × List ℕ}
          (ltb (length (p ++ r)) (w - 8))
          (inl (if length (p ++ r) == 0 then eof else unexpected_eof), [])
          (inr (t, take (w - 8) (p ++ r)), drop (w - 8) (p ++ r)))
      ≡ (inr (t, p), r)
open_read w t p r e =
    let size : w - 8 ≡ length p = omega arith in
    let big : ltb w 8 ≡ false = ground arith in
    let whole : ltb (length (p ++ r)) (length p) ≡ false = ground (arith, length-append p r) in
    rw (big, size, whole, take-length_append p r, drop-length_append p r)

read_box-make_box :
    (a b c d : ℕ) (p r : List ℕ)
    → 8 + length p < 2 ^ 32
    → read_box (make_box (a ∷ b ∷ c ∷ d ∷ []) p ++ r) ≡ (inr (a ∷ b ∷ c ∷ d ∷ [], p), r)
unfolding make_box read_box
read_box-make_box a b c d p r h = open_read _ (a ∷ b ∷ c ∷ d ∷ []) p r (omega arith)

length-track_bytes : (ts : List Track) → length (track_bytes ts) ≡ media_size ts
unfolding track_bytes media_size
length-track_bytes [] = refl
length-track_bytes (t ∷ ts) = omega (
  arith,
  length-append (sample_bytes t.samples) (track_bytes ts),
  length-sample_bytes t.samples,
  length-track_bytes ts,
)

-- A moof and its mdat.
moof_mdat_step :
    (sort : List Packet → List Packet) (defs : List TrackDef) (moof : List ℕ) (start size : ℕ)
    (stream mdat rest : List ℕ) (raw : List RawSample) (ps : List Packet)
    → parse_moof defs moof (pos start) (pos size) ≡ (defs, some raw)
    → read_box stream ≡ (inr (codes "mdat", mdat), rest)
    → packets_of defs mdat raw ≡ ps
    → parse_moof_mdat sort defs moof (pos start) (pos size) stream ≡ (defs, inr (sort ps), rest)
unfolding parse_moof_mdat
moof_mdat_step sort defs moof start size stream mdat rest raw ps h k e = ground arith

module _ (codec_of : SampleEntry → Option CodecData) (sort : List Packet → List Packet)
    (json : List ℕ → Option ℕ) (d : Demuxer) where
  on_moof-step :
      (payload stream rest : List ℕ) (ps : List Packet)
      → parse_moof_mdat sort d.tracks payload (pos d.position) (pos (8 + length payload)) stream
        ≡ (d.tracks, inr ps, rest)
      → on_moof sort json d payload stream ≡ (none, load json (advance d rest) ps)
  unfolding on_moof advance
  on_moof-step payload stream rest ps h = ground arith

  read_packet-step :
      (fuel : ℕ) (payload stream : List ℕ) (next : Demuxer)
      → d.pending ≡ []
      → read_box d.stream ≡ (inr (codes "moof", payload), stream)
      → on_moof sort json d payload stream ≡ (none, next)
      → read_packet codec_of sort json (suc fuel) d ≡ read_packet codec_of sort json fuel next
  unfolding read_packet
  read_packet-step fuel payload stream next h k e = ground arith

module _ (codec_of : SampleEntry → Option CodecData) (sort : List Packet → List Packet)
    (json : List ℕ → Option ℕ) (d : Demuxer) (active : List Track) (seq : ℕ) (rest : List ℕ)
    (fits : All FitsTrack active) (declared : All (IsDeclared d.tracks) active)
    (small : 24 + trafs_size active + 8 + media_size active < 2 ^ 31)
    (early : d.position < 2 ^ 62) where
  moof_size : 8 + length (moof_payload active seq) ≡ estimate_moof_size active
  unfolding moof_payload build_moof make_box
  moof_size =
      sym (length-make_box (codes "moof") (moof_payload active seq))
      ∙ length-build_moof active seq (omega arith)

  on_moof-moof_payload :
      on_moof sort json d (moof_payload active seq) (build_mdat active ++ rest)
      ≡ (none, load json (advance d rest) (sort (demuxed d.tracks active)))
  unfolding build_mdat estimate_moof_size
  on_moof-moof_payload =
      let media : 8 + length (track_bytes active) < 2 ^ 32 =
        omega (arith, length-track_bytes active) in
      let parsed =
        parse_moof-moof_payload d.tracks active seq d.position fits declared small early in
      on_moof-step codec_of sort json d (moof_payload active seq) (build_mdat active ++ rest) rest
        (sort (demuxed d.tracks active))
        (moof_mdat_step sort d.tracks (moof_payload active seq) d.position
          (8 + length (moof_payload active seq)) (build_mdat active ++ rest) (track_bytes active)
          rest (raws 0 active) (demuxed d.tracks active) (rw moof_size parsed)
          (read_box-make_box 109 100 97 116 (track_bytes active) rest media)
          (packets_of-raws d.tracks (track_bytes active) active [] declared refl (omega arith)))

  -- `ReadPacket` on a stream that starts with the moof and the mdat that the muxer writes for some tracks,
  -- and no packet pending: it goes on behind both boxes, with the samples of the tracks loaded as packets.
  -- Each sample comes back with its own bytes, its duration, for a picture its flags and its offset, and a
  -- DTS that counts from the base time of the track by the durations. The demuxer must know the tracks by
  -- their ids without default flags, the fields must fit their widths, and the moof with the mdat must
  -- be shorter than 2 ^ 31 bytes, within the first 2 ^ 62 of the stream.
  pub read_packet-build_moof :
      (fuel : ℕ)
      → d.pending ≡ []
      → d.stream ≡ build_moof active seq ++ (build_mdat active ++ rest)
      → read_packet codec_of sort json (suc fuel) d
        ≡ read_packet codec_of sort json fuel
            (load json (advance d rest) (sort (demuxed d.tracks active)))
  unfolding build_moof moof_payload estimate_moof_size
  read_packet-build_moof fuel h k =
      read_packet-step codec_of sort json d fuel (moof_payload active seq)
        (build_mdat active ++ rest) _ h
        (ap read_box k
          ∙ read_box-make_box 109 111 111 102 (moof_payload active seq) (build_mdat active ++ rest)
              (omega (arith, moof_size)))
        on_moof-moof_payload
