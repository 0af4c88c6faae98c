-- ===== src/Rtp/H264/Tests.antt =====
-- The H.264 depacketizer on concrete packets.
use vrtc_sdk.Prelude.{ℕ, ◌≡◌, ◌≢◌, refl, arith, true, List, [], ◌∷◌}
use vrtc_sdk.Rtp.H264.{Decoder, RtpPacket, new_decoder, decode, err, stuck}
use vrtc_sdk.Rtp.H264.{packet_loss_while_decoding_fua, non_starting_fua_packet, access_unit_size}
use vrtc_sdk.Rtp.H264.Bounds.{IsValid, Sound, decode-Sound}
use vrtc_sdk.Rtp.H264.Total.{decode-ne-stuck}
use vrtc_sdk.Rtp.H264.Fua.{fua_loss, answers}

abbrev packet_of : ℕ → List ℕ → RtpPacket
packet_of seq payload = record {
  payload = payload;
  sequence_number = seq;
  timestamp = 9000;
  marker = true;
}

-- A decoder that has seen the first fragment of an IDR picture and waits for packet 8.
abbrev waiting_decoder : Decoder
waiting_decoder = record {
  first_packet_received = true;
  fragments = (0x65 ∷ []) ∷ (1 ∷ 2 ∷ []) ∷ [];
  fragments_size = 3;
  fragment_next_seq_num = 8;
  frame_buffer = [];
  frame_buffer_len = 0;
  frame_buffer_size = 0;
  frame_buffer_timestamp = 0;
}

waiting_decoder-IsValid : IsValid waiting_decoder
unfolding access_unit_size
waiting_decoder-IsValid = record {
  len_is = refl;
  size_is = refl;
  few = omega arith;
  small = omega arith;
  fragments_are = refl;
}

decode-Sound_example : Sound (decode waiting_decoder (packet_of 8 (0x7C ∷ 0x45 ∷ 3 ∷ [])))
decode-Sound_example =
    decode-Sound waiting_decoder (packet_of 8 (0x7C ∷ 0x45 ∷ 3 ∷ [])) waiting_decoder-IsValid

decode-ne-stuck_example : (decode new_decoder (packet_of 7 (24 ∷ 0 ∷ 1 ∷ 0x67 ∷ []))).0 ≢ err stuck
decode-ne-stuck_example = decode-ne-stuck new_decoder (packet_of 7 (24 ∷ 0 ∷ 1 ∷ 0x67 ∷ []))

abbrev late : RtpPacket
late = packet_of 9 (0x7C ∷ 5 ∷ 3 ∷ [])

abbrev last_one : RtpPacket
last_one = packet_of 10 (0x7C ∷ 0x45 ∷ 4 ∷ [])

fua_loss_example : answers waiting_decoder (late ∷ last_one ∷ []) ≡ (
  err packet_loss_while_decoding_fua ∷ err non_starting_fua_packet ∷ [],
  record waiting_decoder { fragments = []; fragments_size = 0 },
)
fua_loss_example =
    fua_loss waiting_decoder late (last_one ∷ []) (refl, omega arith) ((refl, omega arith), tt)
      (λ e. absurd (omega arith)) refl (λ e. absurd (omega arith))
