-- ===== src/Av/CodecType/Tests.antt =====
-- Names of codec types.
use vrtc_sdk.Prelude.{◌≡◌, refl}
use vrtc_sdk.Av.{make_video_codec_type, make_audio_codec_type}
use vrtc_sdk.Av.CodecType.{aac, h265, unknown, mjpeg, codec_name}
use vrtc_sdk.Av.CodecType.{
  h264, jpeg, vp8, vp9, av1, pcm_mulaw, pcm_alaw, speex, nellymoser, pcm, opus, mp3, pcml, eld,
  flac,
}

h265_name : codec_name h265 ≡ "H265"
unfolding codec_name h264 h265 make_video_codec_type
h265_name = refl

no_name : codec_name unknown ≡ ""
unfolding codec_name unknown h264 h265 jpeg vp8 vp9 av1 aac pcm_mulaw pcm_alaw speex nellymoser pcm
    opus mp3 pcml eld flac make_video_codec_type make_audio_codec_type
no_name = refl

-- MJPEG is a codec type without a name.
mjpeg_name : codec_name mjpeg ≡ ""
unfolding codec_name mjpeg h264 h265 jpeg vp8 vp9 av1 aac pcm_mulaw pcm_alaw speex nellymoser pcm
    opus mp3 pcml eld flac make_video_codec_type make_audio_codec_type
mjpeg_name = refl
