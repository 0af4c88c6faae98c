-- ===== src/Av/CodecType.antt =====
-- av/av.go: the codec types and their names.
mod Tests
use vrtc_sdk.Prelude.{ℕ, ◌+◌, ◌==◌, if◌then◌else◌}
use vrtc_sdk.Av.{make_video_codec_type, make_audio_codec_type}
use Prim.Native.String.{String}

-- `avCodecTypeMagic`.
abbrev magic : ℕ
magic = 233333

pub unknown : ℕ
unknown = make_video_codec_type (magic + 0)

pub h264 : ℕ
h264 = make_video_codec_type (magic + 1)

pub h265 : ℕ
h265 = make_video_codec_type (magic + 2)

pub jpeg : ℕ
jpeg = make_video_codec_type (magic + 3)

pub vp8 : ℕ
vp8 = make_video_codec_type (magic + 4)

pub vp9 : ℕ
vp9 = make_video_codec_type (magic + 5)

pub av1 : ℕ
av1 = make_video_codec_type (magic + 6)

pub mjpeg : ℕ
mjpeg = make_video_codec_type (magic + 7)

pub aac : ℕ
aac = make_audio_codec_type (magic + 1)

pub pcm_mulaw : ℕ
pcm_mulaw = make_audio_codec_type (magic + 2)

pub pcm_alaw : ℕ
pcm_alaw = make_audio_codec_type (magic + 3)

pub speex : ℕ
speex = make_audio_codec_type (magic + 4)

pub nellymoser : ℕ
nellymoser = make_audio_codec_type (magic + 5)

pub pcm : ℕ
pcm = make_audio_codec_type (magic + 6)

pub opus : ℕ
opus = make_audio_codec_type (magic + 7)

pub mp3 : ℕ
mp3 = make_audio_codec_type (magic + 8)

pub pcml : ℕ
pcml = make_audio_codec_type (magic + 9)

pub eld : ℕ
eld = make_audio_codec_type (magic + 10)

pub flac : ℕ
flac = make_audio_codec_type (magic + 11)

-- The empty name is that of a type that is none of these.
pub codec_name : ℕ → String
codec_name s =
    if s == h264
    then "H264"
    else if s == h265
    then "H265"
    else if s == jpeg
    then "JPEG"
    else if s == vp8
    then "VP8"
    else if s == vp9
    then "VP9"
    else if s == av1
    then "AV1"
    else if s == aac
    then "AAC"
    else if s == pcm_mulaw
    then "PCM_MULAW"
    else if s == pcm_alaw
    then "PCM_ALAW"
    else if s == speex
    then "SPEEX"
    else if s == nellymoser
    then "NELLYMOSER"
    else if s == pcm
    then "PCM"
    else if s == opus
    then "OPUS"
    else if s == mp3
    then "MPA"
    else if s == pcml
    then "PCML"
    else if s == eld
    then "AAC_ELD"
    else if s == flac
    then "FLAC"
    else ""
