-- ===== src/Rtp/H264/Fua.antt =====
-- Lost fragments of an FU-A.
use vrtc_sdk.Prelude.{ℕ, ◌<◌, ◌≡◌, refl, arith, ◌≢◌, true, List, [], ◌∷◌, bit_and, ◌==◌, All, map}
use vrtc_sdk.Rtp.H264.{
  Decoder, RtpPacket, Result, err, packet_loss_while_decoding_fua, non_starting_fua_packet,
  reset_fragments, decode_nalus, decode_fua, continue_fua,
}

-- The payload of an FU-A fragment without the start bit.
abbrev pub IsContinuation : List ℕ → Type 0
IsContinuation (b0 ∷ b1 ∷ rest) = ((bit_and b0 0x1F == 28) ≡ true) × (b1 < 128)
IsContinuation _ = ⊥

-- The answers to packets one after the other, and the state after the last.
unfoldable pub answers : Decoder → List RtpPacket → List (Result (List (List ℕ))) × Decoder
answers d [] = ([], d)
answers d (p ∷ ps) =
    let (r, d1) = decode_nalus d p p.payload in let (rs, d2) = answers d1 ps in (r ∷ rs, d2)

abbrev with_no_fragments : Decoder → Decoder
with_no_fragments d = record d { fragments = []; fragments_size = 0 }

lost_fragment :
    (d : Decoder) (pkt : RtpPacket) (payload : List ℕ)
    → IsContinuation payload
    → d.fragments_size ≢ 0
    → pkt.sequence_number ≢ d.fragment_next_seq_num
    → decode_nalus d pkt payload ≡ (err packet_loss_while_decoding_fua, with_no_fragments d)
unfolding decode_nalus decode_fua continue_fua reset_fragments
lost_fragment d pkt [] h pending lost = absurd h
lost_fragment d pkt (b0 ∷ []) h pending lost = absurd h
lost_fragment d pkt (b0 ∷ b1 ∷ rest) (fua, middle) pending lost = ground arith

late_fragment :
    (d : Decoder) (pkt : RtpPacket) (payload : List ℕ)
    → IsContinuation payload
    → d.first_packet_received ≡ true
    → decode_nalus (with_no_fragments d) pkt payload
      ≡ (err non_starting_fua_packet, with_no_fragments d)
unfolding decode_nalus decode_fua continue_fua
late_fragment d pkt [] h first = absurd h
late_fragment d pkt (b0 ∷ []) h first = absurd h
late_fragment d pkt (b0 ∷ b1 ∷ rest) (fua, middle) first = ground arith

late_fragments :
    (d : Decoder) (ps : List RtpPacket)
    → All (λ p. IsContinuation p.payload) ps
    → d.first_packet_received ≡ true
    → answers (with_no_fragments d) ps
      ≡ (map (λ _. err non_starting_fua_packet) ps, with_no_fragments d)
unfolding answers
late_fragments d [] all first = refl
late_fragments d (p ∷ ps) all first =
    rw (late_fragment d p p.payload all.0 first, late_fragments d ps all.1 first) refl

-- When an FU-A is pending and a packet was received before, a fragment that is no start and whose sequence
-- number is not the one expected ends the fragmented NALU: it and every further fragment that is no start
-- get an error, however many there are and whatever their sequence numbers, so that no NALU comes out,
-- and the state is that before the loss with no fragments and a size of 0.
pub fua_loss :
    (d : Decoder) (pkt : RtpPacket) (later : List RtpPacket)
    → IsContinuation pkt.payload
    → All (λ p. IsContinuation p.payload) later
    → d.fragments_size ≢ 0
    → d.first_packet_received ≡ true
    → pkt.sequence_number ≢ d.fragment_next_seq_num
    → answers d (pkt ∷ later) ≡ (
      err packet_loss_while_decoding_fua ∷ map (λ _. err non_starting_fua_packet) later,
      record d { fragments = []; fragments_size = 0 },
    )
unfolding answers
fua_loss d pkt later middle all pending first lost =
    rw (lost_fragment d pkt pkt.payload middle pending lost, late_fragments d later all first) refl
