-- ===== src/Fmp4/Stsd.antt =====
-- av/format/fmp4/demuxer.go: how a sample entry is read.
use vrtc_sdk.Prelude.{
  ℕ, ◌/◌, ◌^◌, ◌||◌, Option, none, some, ◌>>=◌, List, ltb, ◌==◌, if◌then◌else◌, length, drop,
}
use vrtc_sdk.Prelude.Endian.{codes, get16, get32, same_bytes}
use vrtc_sdk.Fmp4.Box.{split_box, find_box}
use vrtc_sdk.Fmp4.Esds.{parse_esds, channel_layout_from_count}

-- What an entry says of its codec: a decoder configuration record, an audio configuration, or the rate
-- and the channel layout of FLAC.
pub data SampleEntry : Type 0 where
  avc hevc mp4a : List ℕ → SampleEntry
  flac_entry : ℕ → ℕ → SampleEntry

-- The configuration box `typ` of a video entry, behind its header of 78 bytes.
unfoldable pub video_config : List ℕ → List ℕ → Option (List ℕ)
video_config payload typ = if ltb (length payload) 78 then none else find_box (drop 78 payload) typ

-- The configuration box of an audio entry, behind its header of 28 bytes.
unfoldable pub audio_config : List ℕ → List ℕ → Option (List ℕ)
audio_config payload typ = if ltb (length payload) 28 then none else find_box (drop 28 payload) typ

-- The case "fLaC" of `parseStsdEntry`; it does not use the body of the dfLa box.
unfoldable pub parse_flac : List ℕ → Option SampleEntry
unfolding audio_config channel_layout_from_count
parse_flac payload = do
  config ← audio_config payload (codes "dfLa")
  channels ← get16 (drop 16 payload)
  rate ← get32 (drop 24 payload)
  if channels == 0 || rate / 2 ^ 16 == 0
      then none
      else some (flac_entry (rate / 2 ^ 16) (channel_layout_from_count channels))

-- `parseStsdEntry`, without the parsers of the codecs; none is an error.
unfoldable pub parse_stsd_entry : List ℕ → Option SampleEntry
unfolding video_config audio_config parse_flac
parse_stsd_entry b = split_box b >>= λ box.
    if same_bytes box.0 (codes "avc1") || same_bytes box.0 (codes "avc3")
    then (video_config box.1 (codes "avcC") >>= λ c. some (avc c))
    else if same_bytes box.0 (codes "hev1") || same_bytes box.0 (codes "hvc1")
    then (video_config box.1 (codes "hvcC") >>= λ c. some (hevc c))
    else if same_bytes box.0 (codes "mp4a")
    then (audio_config box.1 (codes "esds") >>= λ esds. parse_esds esds >>= λ asc. some (mp4a asc))
    else if same_bytes box.0 (codes "fLaC")
    then parse_flac box.1
    else none
