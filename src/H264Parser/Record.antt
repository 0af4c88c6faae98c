-- ===== src/H264Parser/Record.antt =====
-- av/codec/h264parser/codec_data.go: the avcC record, and the codec data from it. A buffer that `Marshal`
-- fills is the list of what it gets.
pub mod RoundTrip
use vrtc_sdk.Prelude.{
  ℕ, zero, suc, ◌+◌, ◌-◌, ◌*◌, ◌/◌, ◌%◌, ◌^◌, Bool, true, false, ◌||◌, Option, none, some, ◌>>=◌,
  ◌⊎◌, inl, inr, List, [], ◌∷◌, ◌++◌, ltb, ◌==◌, if◌then◌else◌, length, take, drop, bit_or,
}
use vrtc_sdk.Prelude.Endian.{put16, word16}
use vrtc_sdk.H264Parser.Sps.{SpsInfo, parse_sps}

-- `AVCDecoderConfRecord`.
pub record AvcDecoderConfRecord : Type 0 where
  pub avc_profile_indication : ℕ
  pub profile_compatibility : ℕ
  pub avc_level_indication : ℕ
  pub length_size_minus_one : ℕ
  pub sps : List (List ℕ)
  pub pps : List (List ℕ)

-- The loops of `Marshal`.
unfoldable pub marshal_units : List (List ℕ) → List ℕ → List ℕ
marshal_units [] r = r
marshal_units (u ∷ us) r = put16 (length u) (u ++ marshal_units us r)

-- `Marshal`.
unfoldable pub marshal : AvcDecoderConfRecord → List ℕ
unfolding marshal_units
marshal s =
    1
    ∷ s.avc_profile_indication
    ∷ s.profile_compatibility
    ∷ s.avc_level_indication
    ∷ bit_or 0xfc s.length_size_minus_one
    ∷ bit_or 0xe0 (length s.sps % 256)
    ∷ marshal_units s.sps (length s.pps % 256 ∷ marshal_units s.pps [])

-- `Len`.
unfoldable pub units_len : List (List ℕ) → ℕ
units_len [] = 0
units_len (u ∷ us) = 2 + length u + units_len us

unfoldable pub len : AvcDecoderConfRecord → ℕ
unfolding units_len
len s = 7 + units_len s.sps + units_len s.pps

-- The loops of `Unmarshal`: the units and what is left.
unfoldable pub unmarshal_units : ℕ → List ℕ → Option (List (List ℕ) × List ℕ)
unmarshal_units zero b = some ([], b)
unmarshal_units (suc n) (l1 ∷ l0 ∷ b) =
    let size = word16 l1 l0 in
    if ltb (length b) size
    then none
    else (unmarshal_units n (drop size b) >>= λ us. some (take size b ∷ us.0, us.1))
unmarshal_units (suc n) _ = none

unfoldable pub unmarshal_pps : List ℕ → Option (List (List ℕ) × List ℕ)
unfolding unmarshal_units
unmarshal_pps [] = none
unmarshal_pps (n ∷ b) = unmarshal_units n b

-- `Unmarshal`, with what is left of the slice; none is `ErrDecconfInvalid`.
unfoldable pub unmarshal : List ℕ → Option (AvcDecoderConfRecord × List ℕ)
unfolding unmarshal_units unmarshal_pps
unmarshal (version ∷ profile ∷ compatibility ∷ level ∷ size ∷ count ∷ c ∷ b) = do
  sps ← unmarshal_units (count % 2 ^ 5) (c ∷ b)
  pps ← unmarshal_pps sps.1
  some (
    record {
      avc_profile_indication = profile;
      profile_compatibility = compatibility;
      avc_level_indication = level;
      length_size_minus_one = size % 2 ^ 2;
      sps = sps.0;
      pps = pps.0;
    },
    pps.1,
  )
unmarshal _ = none

-- Why there is no codec data.
pub data RecordError : Type 0 where
  decconf_invalid sps_not_found pps_not_found parse_sps_failed : RecordError

-- `CodecData`, less the control URL.
pub record CodecData : Type 0 where
  pub bytes : List ℕ
  pub record_info : AvcDecoderConfRecord
  pub sps_info : SpsInfo

-- `NewCodecDataFromAVCDecoderConfRecord`.
unfoldable pub new_codec_data_from_avc_decoder_conf_record :
    (ℕ → ℕ) → List ℕ → RecordError ⊎ CodecData
unfolding unmarshal parse_sps
new_codec_data_from_avc_decoder_conf_record infinite bytes = elim (unmarshal bytes) [
  | none ↦ inl decconf_invalid
  | some (info, rest) ↦ elim info.sps [
    | [] ↦ inl sps_not_found
    | s ∷ ss ↦ if length info.pps == 0 then inl pps_not_found else elim (parse_sps infinite s) [
      | none ↦ inl parse_sps_failed
      | some sps ↦ inr (record { bytes = bytes; record_info = info; sps_info = sps })
    ]
  ]
]

-- `NewCodecDataFromSPSAndPPS`; none is the panic of an SPS that is too short.
unfoldable pub new_codec_data_from_sps_and_pps :
    (ℕ → ℕ) → List ℕ → List ℕ → Option (RecordError ⊎ CodecData)
unfolding marshal parse_sps
new_codec_data_from_sps_and_pps infinite (header ∷ profile ∷ compatibility ∷ level ∷ b) pps =
    let sps = header ∷ profile ∷ compatibility ∷ level ∷ b in
    let info : AvcDecoderConfRecord = record {
      avc_profile_indication = profile;
      profile_compatibility = compatibility;
      avc_level_indication = level;
      length_size_minus_one = 3;
      sps = sps ∷ [];
      pps = pps ∷ [];
    } in
    elim (parse_sps infinite sps) [
      | none ↦ some (inl parse_sps_failed)
      | some s ↦ some (inr (record { bytes = marshal info; record_info = info; sps_info = s }))
    ]
new_codec_data_from_sps_and_pps infinite _ pps = none

-- `SPS` and `PPS`.
unfoldable pub first_or_zero : List (List ℕ) → List ℕ
first_or_zero [] = 0 ∷ []
first_or_zero (u ∷ us) = u
