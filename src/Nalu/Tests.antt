-- ===== src/Nalu/Tests.antt =====
-- Concrete runs of the NAL unit framing, and its theorems at concrete inputs.
use vrtc_sdk.Prelude.{◌≡◌, refl, List, [], ◌∷◌, some, ◌++◌}
use vrtc_sdk.Prelude.{ℕ, arith}
use vrtc_sdk.Pio.{be32}
use vrtc_sdk.Nalu.Avcc.{
  avcc_to_nalus-nalus_to_avcc, split_nalus-nalus_to_avcc, split_nalus_dangling_prefix,
}
use vrtc_sdk.Nalu.Detect.{is_annexb_or_avcc_prefix}
use vrtc_sdk.Nalu.Convert.{annexb_stream, avcc_to_annexb-nalus_to_avcc}
use vrtc_sdk.Nalu.AnnexB.{annexb_to_avcc-annexb_stream}
use vrtc_sdk.Pio.{u32_be, shift_in}
use vrtc_sdk.Nalu.{
  split_nalus, annexb_to_avcc, avcc_to_annexb, nalus_to_avcc, avcc_to_nalus, output,
}
use vrtc_sdk.Nalu.{nalu_avcc, nalu_annexb, start_code4}
use vrtc_sdk.Nalu.{is_annexb_or_avcc, nalu_indices, extract_nalus, len_start_code, avcc_loop}
use vrtc_sdk.Nalu.{
  annexb_loop, find_next_annexb_nal_unit, avcc_to_annexb_loop, read_nalu_length, avcc_units, units,
}

abbrev two_units : List (List ℕ)
two_units = (0x67 ∷ 1 ∷ []) ∷ (0x68 ∷ 2 ∷ 3 ∷ []) ∷ []

abbrev annexb_bytes : List ℕ
annexb_bytes = start_code4 (0x67 ∷ 1 ∷ 0 ∷ 0 ∷ 1 ∷ 0x68 ∷ 2 ∷ 3 ∷ [])

split_annexb : split_nalus annexb_bytes ≡ some (two_units, nalu_annexb)
unfolding split_nalus is_annexb_or_avcc nalu_indices extract_nalus len_start_code
split_annexb = refl

split_avcc : split_nalus (nalus_to_avcc two_units) ≡ some (two_units, nalu_avcc)
unfolding split_nalus is_annexb_or_avcc avcc_loop nalus_to_avcc u32_be shift_in
split_avcc = refl

convert_annexb : annexb_to_avcc annexb_bytes ≡ some (nalus_to_avcc two_units)
unfolding annexb_to_avcc nalus_to_avcc annexb_loop find_next_annexb_nal_unit
convert_annexb = refl

convert_back :
    avcc_to_annexb (nalus_to_avcc two_units)
    ≡ output (start_code4 (0x67 ∷ 1 ∷ []) ++ start_code4 (0x68 ∷ 2 ∷ 3 ∷ []))
unfolding avcc_to_annexb nalus_to_avcc avcc_to_annexb_loop read_nalu_length
convert_back = refl

units_back : avcc_to_nalus (nalus_to_avcc two_units) ≡ units two_units
unfolding avcc_to_nalus nalus_to_avcc avcc_units u32_be shift_in
units_back = refl

two_units_back : avcc_to_nalus (nalus_to_avcc two_units) ≡ units two_units
two_units_back = avcc_to_nalus-nalus_to_avcc two_units (omega arith)

split_nalus-nalus_to_avcc_example :
    split_nalus (nalus_to_avcc two_units) ≡ some (two_units, nalu_avcc)
split_nalus-nalus_to_avcc_example =
    split_nalus-nalus_to_avcc (0x67 ∷ 1 ∷ []) ((0x68 ∷ 2 ∷ 3 ∷ []) ∷ []) (omega arith)
      (unfold nalus_to_avcc in omega arith)

dangling_prefix_unseen :
    split_nalus (nalus_to_avcc two_units ++ be32 9 []) ≡ some (two_units, nalu_avcc)
dangling_prefix_unseen =
    split_nalus_dangling_prefix (0x67 ∷ 1 ∷ []) ((0x68 ∷ 2 ∷ 3 ∷ []) ∷ []) 9 (omega arith)
      (omega arith) (omega arith) (unfold nalus_to_avcc in omega arith)

prefix_is_avcc : is_annexb_or_avcc (be32 3 (0x65 ∷ 7 ∷ 8 ∷ [])) ≡ nalu_avcc
prefix_is_avcc =
    is_annexb_or_avcc_prefix 3 (0x65 ∷ 7 ∷ 8 ∷ []) (omega arith) (omega arith) (omega arith)

avcc_to_annexb-nalus_to_avcc_example :
    avcc_to_annexb (nalus_to_avcc two_units) ≡ output (annexb_stream two_units)
avcc_to_annexb-nalus_to_avcc_example = avcc_to_annexb-nalus_to_avcc two_units (omega arith)

annexb_to_avcc-annexb_stream_example :
    annexb_to_avcc (annexb_stream two_units) ≡ some (nalus_to_avcc two_units)
unfolding len_start_code
annexb_to_avcc-annexb_stream_example =
    annexb_to_avcc-annexb_stream two_units ((refl, (refl, tt)), ((refl, (refl, (refl, tt))), tt))
