-- ===== src/Av/Tests.antt =====
-- Codec types at concrete inputs.
use vrtc_sdk.Prelude.{◌≡◌, refl, true, false}
use vrtc_sdk.Av.{make_video_codec_type, make_audio_codec_type, is_audio, is_video}
use vrtc_sdk.Av.Codec.{make_codec_type-kind}

-- AAC is audio type 1 and H.265 is video type 2.
aac_type : make_audio_codec_type 1 ≡ 3
unfolding make_audio_codec_type
aac_type = refl

h265_type : make_video_codec_type 2 ≡ 4
unfolding make_video_codec_type
h265_type = refl

kind_of_two :
    (is_video (make_video_codec_type 2) ≡ true)
    × (is_audio (make_video_codec_type 2) ≡ false)
    × (is_audio (make_audio_codec_type 2) ≡ true)
    × (is_video (make_audio_codec_type 2) ≡ false)
kind_of_two = make_codec_type-kind 2
