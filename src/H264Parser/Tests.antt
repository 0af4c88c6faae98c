-- ===== src/H264Parser/Tests.antt =====
-- A record of one parameter set of each kind.
use vrtc_sdk.Prelude.{◌≡◌, arith, some, [], ◌∷◌}
use vrtc_sdk.H264Parser.Record.{AvcDecoderConfRecord, marshal, unmarshal}
use vrtc_sdk.H264Parser.Record.RoundTrip.{unmarshal-marshal}

abbrev main_record : AvcDecoderConfRecord
main_record = record {
  avc_profile_indication = 0x4d;
  profile_compatibility = 0;
  avc_level_indication = 0x28;
  length_size_minus_one = 3;
  sps = (0x67 ∷ 0x4d ∷ 0 ∷ 0x28 ∷ []) ∷ [];
  pps = (0x68 ∷ 0xee ∷ []) ∷ [];
}

unmarshal-marshal_example : unmarshal (marshal main_record) ≡ some (main_record, [])
unmarshal-marshal_example = unmarshal-marshal main_record (omega arith)
