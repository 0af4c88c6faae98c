-- ===== src/Av/NaluType.antt =====
-- av/nalutype.go: the names of NAL unit types.
-- A type is its number, in the order of the constants. `none` is a type that the code prints by number.
mod Tests
use vrtc_sdk.Prelude.{ℕ, ◌/◌, ◌^◌, bit_and, Option, none, some, ◌==◌, if◌then◌else◌}
use Prim.Native.String.{String}

-- The type of a NAL unit that starts with the byte `b`.
pub h264_nalu_type : ℕ → ℕ
h264_nalu_type b = bit_and b 0x1F

pub h265_nalu_type : ℕ → ℕ
h265_nalu_type b = bit_and (b / 2 ^ 1) 0x3F

pub h264_name : ℕ → Option String
h264_name t =
    if t == 0
    then some "UNSPECIFIED"
    else if t == 1
    then some "NON_IDR_SLICE"
    else if t == 2
    then some "DPA"
    else if t == 3
    then some "DPB"
    else if t == 4
    then some "DPC"
    else if t == 5
    then some "IDR_SLICE"
    else if t == 6
    then some "SEI"
    else if t == 7
    then some "SPS"
    else if t == 8
    then some "PPS"
    else if t == 9
    then some "AUD"
    else if t == 10
    then some "END_SEQUENCE"
    else if t == 11
    then some "END_STREAM"
    else if t == 12
    then some "FILLER_DATA"
    else if t == 13
    then some "SPS_EXT"
    else if t == 14
    then some "PREFIX"
    else if t == 15
    then some "SUB_SPS"
    else if t == 16
    then some "DPS"
    else if t == 17
    then some "RESERVED17"
    else if t == 18
    then some "RESERVED18"
    else if t == 19
    then some "AUXILIARY_SLICE"
    else if t == 20
    then some "EXTEN_SLICE"
    else if t == 21
    then some "DEPTH_EXTEN_SLICE"
    else if t == 22
    then some "RESERVED22"
    else if t == 23
    then some "RESERVED23"
    else none

pub h265_name : ℕ → Option String
h265_name t =
    if t == 0
    then some "TRAIL_N"
    else if t == 1
    then some "TRAIL_R"
    else if t == 2
    then some "TSA_N"
    else if t == 3
    then some "TSA_R"
    else if t == 4
    then some "STSA_N"
    else if t == 5
    then some "STSA_R"
    else if t == 6
    then some "RADL_N"
    else if t == 7
    then some "RADL_R"
    else if t == 8
    then some "RASL_N"
    else if t == 9
    then some "RASL_R"
    else if t == 10
    then some "VCL_N10"
    else if t == 11
    then some "VCL_R11"
    else if t == 12
    then some "VCL_N12"
    else if t == 13
    then some "VCL_R13"
    else if t == 14
    then some "VCL_N14"
    else if t == 15
    then some "VCL_R15"
    else if t == 16
    then some "BLA_W_LP"
    else if t == 17
    then some "BLA_W_RADL"
    else if t == 18
    then some "BLA_N_LP"
    else if t == 19
    then some "IDR_W_RADL"
    else if t == 20
    then some "IDR_N_LP"
    else if t == 21
    then some "CRA_NUT"
    else if t == 22
    then some "RSV_IRAP_VCL22"
    else if t == 23
    then some "RSV_IRAP_VCL23"
    else if t == 24
    then some "RSV_VCL24"
    else if t == 25
    then some "RSV_VCL25"
    else if t == 26
    then some "RSV_VCL26"
    else if t == 27
    then some "RSV_VCL27"
    else if t == 28
    then some "RSV_VCL28"
    else if t == 29
    then some "RSV_VCL29"
    else if t == 30
    then some "RSV_VCL30"
    else if t == 31
    then some "RSV_VCL31"
    else if t == 32
    then some "VPS"
    else if t == 33
    then some "SPS"
    else if t == 34
    then some "PPS"
    else if t == 35
    then some "AUD"
    else if t == 36
    then some "EOS_NUT"
    else if t == 37
    then some "EOB_NUT"
    else if t == 38
    then some "FD_NUT"
    else if t == 39
    then some "SEI_PREFIX"
    else if t == 40
    then some "SEI_SUFFIX"
    else none
