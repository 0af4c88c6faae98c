-- ===== src/Av/Codec.antt =====
-- Codec types: audio and video.
use vrtc_sdk.Prelude.{ℕ, ◌+◌, ◌*◌, ◌%◌, ◌^◌, ◌≡◌, arith, true, false, bit_or}
use vrtc_sdk.Prelude.Bits.{or_low, and_mask}
use vrtc_sdk.Av.{make_video_codec_type, make_audio_codec_type, is_audio, is_video}

-- Every base makes a video type that is video and not audio, and an audio type that is audio and not
-- video; so no video type equals an audio type.
pub make_codec_type-kind :
    (base : ℕ)
    → (is_video (make_video_codec_type base) ≡ true)
      × (is_audio (make_video_codec_type base) ≡ false)
      × (is_audio (make_audio_codec_type base) ≡ true)
      × (is_video (make_audio_codec_type base) ≡ false)
unfolding make_video_codec_type make_audio_codec_type is_audio is_video
make_codec_type-kind base =
    let half : base * 2 ^ 1 % 2 ^ 32 ≡ base % 2 ^ 31 * 2 ^ 1 = omega arith in
    let audio : bit_or (base * 2 ^ 1 % 2 ^ 32) 1 ≡ base % 2 ^ 31 * 2 ^ 1 + 1 =
      rw half (or_low 1 (base % 2 ^ 31) 1 (omega arith)) in
    ground (
      arith,
      half,
      audio,
      and_mask 1 (base % 2 ^ 31 * 2 ^ 1),
      and_mask 1 (base % 2 ^ 31 * 2 ^ 1 + 1),
    )
