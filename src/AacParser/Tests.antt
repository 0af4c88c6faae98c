-- ===== src/AacParser/Tests.antt =====
-- A stereo frame at 48000 Hz.
use vrtc_sdk.Prelude.{◌≡◌, arith, inr, [], ◌∷◌, ◌++◌}
use vrtc_sdk.AacParser.Config.{Mpeg4AudioConfig}
use vrtc_sdk.AacParser.Adts.{
  fill_adts_header, extract_adts_frame, told, extract_adts_frame-fill_adts_header,
}

abbrev stereo_lc : Mpeg4AudioConfig
stereo_lc = record {
  sample_rate = 48000;
  channel_layout = 6;
  object_type = 2;
  sample_rate_index = 3;
  channel_config = 2;
}

extract_adts_frame-fill_adts_header_example :
    extract_adts_frame (fill_adts_header stereo_lc 1024 3 ++ (7 ∷ 8 ∷ 9 ∷ []))
    ≡ inr (7 ∷ 8 ∷ 9 ∷ [], record { config = stereo_lc; hdrlen = 7; framelen = 10; samples = 1024 })
unfolding told
extract_adts_frame-fill_adts_header_example =
    extract_adts_frame-fill_adts_header stereo_lc 0 (7 ∷ 8 ∷ 9 ∷ [])
      (omega arith, omega arith, omega arith, omega arith) (omega arith) (omega arith)
