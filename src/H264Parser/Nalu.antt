-- ===== src/H264Parser/Nalu.antt =====
-- av/codec/h264parser/nalu.go. A predicate on an empty header panics, which is none.
use vrtc_sdk.Prelude.{
  ℕ, ◌%◌, ◌^◌, Bool, ◌||◌, ◌&&◌, Option, none, some, ◌>>=◌, ◌⊎◌, inl, inr, List, [], ◌∷◌, leb, ◌==◌,
  if◌then◌else◌,
}
use vrtc_sdk.Bits.Golomb.{read_exponential_golomb_code}

-- `H264NaluType(nalHeader[0]) & H264NALTypeMask`.
unfoldable pub nal_type : List ℕ → Option ℕ
nal_type [] = none
nal_type (h ∷ r) = some (h % 2 ^ 5)

unfoldable pub is_key_frame : List ℕ → Option Bool
unfolding nal_type
is_key_frame nalu = nal_type nalu >>= λ t. some (t == 5)

unfoldable pub is_data_nalu : List ℕ → Option Bool
unfolding nal_type
is_data_nalu nalu = nal_type nalu >>= λ t. some (leb 1 t && leb t 5)

unfoldable pub is_spsnalu : List ℕ → Option Bool
unfolding nal_type
is_spsnalu nalu = nal_type nalu >>= λ t. some (t == 7)

unfoldable pub is_ppsnalu : List ℕ → Option Bool
unfolding nal_type
is_ppsnalu nalu = nal_type nalu >>= λ t. some (t == 8)

unfoldable pub is_param_set_nalu : List ℕ → Option Bool
unfolding is_spsnalu is_ppsnalu
is_param_set_nalu nalu = do s ← is_spsnalu nalu; p ← is_ppsnalu nalu; some (s || p)

-- `SliceType`.
pub data SliceType : Type 0 where
  slice_p slice_b slice_i : SliceType

pub data SliceError : Type 0 where
  packet_too_short nal_has_no_slice_header invalid_slice_type eof : SliceError

-- The cases of slice_type.
unfoldable pub slice_type : ℕ → SliceError ⊎ SliceType
slice_type u =
    if u == 0 || u == 3 || u == 5 || u == 8
    then inr slice_p
    else if u == 1 || u == 6
    then inr slice_b
    else if u == 2 || u == 4 || u == 7 || u == 9
    then inr slice_i
    else inl invalid_slice_type

-- `ParseSliceHeaderFromNALU`.
unfoldable pub parse_slice_header_from_nalu : List ℕ → SliceError ⊎ SliceType
unfolding slice_type read_exponential_golomb_code
parse_slice_header_from_nalu (h ∷ c ∷ b) =
    let t = h % 2 ^ 5 in
    let code =
      read_exponential_golomb_code (record { source = c ∷ b; buf = 0; left = 0 }) >>= λ first.
      read_exponential_golomb_code first.1 in
    if t == 1 || t == 2 || t == 5 || t == 19
    then elim code [ none ↦ inl eof | some (u, r) ↦ slice_type u ]
    else inl nal_has_no_slice_header
parse_slice_header_from_nalu _ = inl packet_too_short
