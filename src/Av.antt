-- ===== src/Av.antt =====
-- av/av.go and av/packet.go: codec types, streams and packets.
-- A time.Time is its distance in nanoseconds from the zero Time, which is 0; a pointer that is only
-- passed on (the analytics) is a number that identifies it.
pub mod Codec
pub mod AudioFrame
pub mod NaluType
pub mod CodecType
mod Tests
use vrtc_sdk.Prelude.{ℕ, ◌+◌, ◌*◌, ◌%◌, ◌^◌, bit_and, bit_or, Bool, not, ◌==◌, Option, List}
use vrtc_sdk.Prelude.Int.{ℤ, add64}
use Prim.Native.String.{String}

-- `codecTypeAudioBit`.
abbrev audio_bit : ℕ
audio_bit = 1

pub make_video_codec_type : ℕ → ℕ
make_video_codec_type base = base * 2 ^ 1 % 2 ^ 32

pub make_audio_codec_type : ℕ → ℕ
make_audio_codec_type base = bit_or (base * 2 ^ 1 % 2 ^ 32) audio_bit

unfoldable pub is_audio : ℕ → Bool
is_audio s = not (bit_and s audio_bit == 0)

unfoldable pub is_video : ℕ → Bool
is_video s = bit_and s audio_bit == 0

-- What the code reads of a CodecData: its type, its RFC 6381 tag if it has a `Tag` method, and width
-- and height if it is a VideoCodecData.
pub record CodecData : Type 0 where
  pub codec_type : ℕ
  pub tag : Option String
  pub video : Option (ℕ × ℕ)

pub record Stream : Type 0 where
  pub idx : ℕ
  pub codec : CodecData

pub record Packet : Type 0 where
  pub key_frame : Bool
  pub is_discontinuity : Bool
  pub idx : ℕ
  pub codec_type : ℕ
  pub frame_id : ℤ
  pub dts : ℤ
  pub pts_offset : ℤ
  pub duration : ℤ
  pub wall_clock_time : ℕ
  pub payload : List ℕ
  pub analytics : Option ℕ
  pub new_codecs : Option (List Stream)

-- `PTS`.
pub pts : Packet → ℤ
pts m = add64 m.dts m.pts_offset

-- `HasWallClockTime`.
pub has_wall_clock_time : Packet → Bool
has_wall_clock_time m = not (m.wall_clock_time == 0)
