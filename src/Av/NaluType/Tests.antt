-- ===== src/Av/NaluType/Tests.antt =====
-- The names of the NAL units that start a keyframe.
use vrtc_sdk.Prelude.{◌≡◌, refl, some}
use vrtc_sdk.Av.NaluType.{h264_nalu_type, h264_name, h265_nalu_type, h265_name}

idr_name : h264_name (h264_nalu_type 0x65) ≡ some "IDR_SLICE"
unfolding h264_name h264_nalu_type
idr_name = refl

vps_name : h265_name (h265_nalu_type 0x40) ≡ some "VPS"
unfolding h265_name h265_nalu_type
vps_name = refl
