-- ===== src/AacParser/Config.antt =====
-- av/codec/aacparser/parser.go: `MPEG4AudioConfig` and its bytes.
use vrtc_sdk.Prelude.{
  ℕ, ◌+◌, ◌-◌, ◌*◌, ◌/◌, ◌^◌, Bool, Option, none, some, ◌>>=◌, List, [], ◌∷◌, ltb, ◌==◌,
  if◌then◌else◌, get_or,
}
use vrtc_sdk.Bits.Words.{Reader, Writer, read_bits64, write_bits64, flush_bits}

-- `MPEG4AudioConfig`.
pub record Mpeg4AudioConfig : Type 0 where
  pub sample_rate : ℕ
  pub channel_layout : ℕ
  pub object_type : ℕ
  pub sample_rate_index : ℕ
  pub channel_config : ℕ

-- `sampleRateTable`.
abbrev pub sample_rate_table : List ℕ
sample_rate_table =
    96000 ∷ 88200 ∷ 64000 ∷ 48000 ∷ 44100 ∷ 32000 ∷ 24000 ∷ 22050 ∷ 16000 ∷ 12000 ∷ 11025 ∷ 8000
    ∷ 7350 ∷ []

-- `chanConfigTable`: masks of the front center (1), left (2) and right (4), the back center (8), left
-- (16) and right (32), the side left (64) and right (128) and the low frequencies (256).
abbrev pub chan_config_table : List ℕ
chan_config_table = 0 ∷ 1 ∷ 6 ∷ 7 ∷ 15 ∷ 55 ∷ 311 ∷ 503 ∷ []

-- `Complete`.
unfoldable pub complete : Mpeg4AudioConfig → Mpeg4AudioConfig
complete s = record s {
  sample_rate = get_or sample_rate_table s.sample_rate_index s.sample_rate;
  channel_layout = get_or chan_config_table s.channel_config s.channel_layout;
}

-- `readObjectType`.
unfoldable pub read_object_type : Reader → Option (ℕ × Reader)
unfolding read_bits64
read_object_type r = do
  t ← read_bits64 5 r
  if t.0 == 31 then (read_bits64 6 t.1 >>= λ i. some (32 + i.0, i.1)) else some t

-- `writeObjectType`.
unfoldable pub write_object_type : ℕ → Writer → Writer
unfolding write_bits64
write_object_type t w =
    if ltb 31 t then write_bits64 (t - 32) 6 (write_bits64 31 5 w) else write_bits64 t 5 w

-- `readSampleRateIndex`.
unfoldable pub read_sample_rate_index : Reader → Option (ℕ × Reader)
unfolding read_bits64
read_sample_rate_index r = do
  index ← read_bits64 4 r
  if index.0 == 0xf then read_bits64 24 index.1 else some index

-- `writeSampleRateIndex`.
unfoldable pub write_sample_rate_index : ℕ → Writer → Writer
unfolding write_bits64
write_sample_rate_index index w =
    if ltb 14 index then write_bits64 index 24 (write_bits64 0xf 4 w) else write_bits64 index 4 w

-- `ParseMPEG4AudioConfigBytes`; none is an error.
unfoldable pub parse_mpeg4audio_config_bytes : List ℕ → Option Mpeg4AudioConfig
unfolding read_object_type read_sample_rate_index read_bits64 complete
parse_mpeg4audio_config_bytes bytes = do
  t ← read_object_type (record { source = bytes; n = 0; bits = 0 })
  index ← read_sample_rate_index t.1
  channels ← read_bits64 4 index.1
  some (
      complete (record {
        sample_rate = 0;
        channel_layout = 0;
        object_type = t.0;
        sample_rate_index = index.0;
        channel_config = channels.0;
      }))

-- The last index of a rate in a table, from `i` on.
unfoldable pub last_index : ℕ → List ℕ → ℕ → ℕ → ℕ
last_index rate [] i found = found
last_index rate (r ∷ rs) i found = last_index rate rs (i + 1) (if r == rate then i else found)

-- `layoutToChannelConfig`.
unfoldable pub layout_to_channel_config : ℕ → Option ℕ
layout_to_channel_config l =
    if l == 1
    then some 1
    else if l == 6
    then some 2
    else if l == 7
    then some 3
    else if l == 15
    then some 4
    else if l == 55
    then some 5
    else if l == 311
    then some 6
    else none

-- `WriteMPEG4AudioConfig`; what is written.
unfoldable pub write_mpeg4audio_config : Mpeg4AudioConfig → List ℕ
unfolding write_object_type last_index write_sample_rate_index layout_to_channel_config write_bits64
    flush_bits
write_mpeg4audio_config config =
    let index =
      if config.sample_rate_index == 0
      then last_index config.sample_rate sample_rate_table 0 0
      else config.sample_rate_index in
    let channels =
      if config.channel_config == 0
      then elim (layout_to_channel_config config.channel_layout) [ some c ↦ c | none ↦ 0 ]
      else config.channel_config in
    (flush_bits (
      write_bits64 channels 4 (
        write_sample_rate_index index
          (write_object_type config.object_type (record { sink = []; n = 0; bits = 0 }))))).sink

-- `IsValid`, `IsLC` and `PacketDuration`, in nanoseconds; none is an error.
unfoldable pub is_valid : Mpeg4AudioConfig → Bool
is_valid s = ltb 0 s.object_type

unfoldable pub is_lc : Mpeg4AudioConfig → Bool
is_lc s = s.object_type == 2

unfoldable pub packet_duration : Mpeg4AudioConfig → Option ℕ
packet_duration s = if s.sample_rate == 0 then none else some (10 ^ 9 * 1024 / s.sample_rate)
