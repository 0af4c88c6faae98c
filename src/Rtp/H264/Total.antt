-- ===== src/Rtp/H264/Total.antt =====
-- The fuel of the two loops of the decoder.
use vrtc_sdk.Prelude.{
  ℕ, zero, suc, ◌+◌, ◌-◌, ◌*◌, ◌%◌, ◌^◌, ◌<◌, arith, ◌≢◌, Bool, true, false, not, ◌&&◌, List, [],
  ◌∷◌, ◌++◌, bit_or, bit_and, ◌/◌,
}
use vrtc_sdk.Prelude.{
  length, length-drop, drop, take, ltb, ◌==◌, get_or, if◌then◌else◌, Bool-cases, Option-cases, inl,
  inr,
}
use vrtc_sdk.Rtp.H264.{
  join_fragments, need_more_packets, non_starting_fua_packet, packet_loss_while_decoding_fua,
  access_unit_too_big, max_access_unit_size, reset_fragments, Decoder, RtpPacket, ok, err, stuck,
  Answer, split_loop, stapa_loop, index_of_code, split_nalus_annexb,
}
use vrtc_sdk.Rtp.H264.{
  finish_fua, start_fua, continue_fua, decode_fua, decode_stapa, decode_nalus, add_to_frame_buffer,
  collect, decode,
}

split-ne-stuck : (f : ℕ) (b : List ℕ) → length b < f → split_loop f b ≢ err stuck
unfolding split_loop
split-ne-stuck zero b h = absurd (omega arith)
split-ne-stuck (suc f) [] h = λ e. cc
split-ne-stuck (suc f) (x ∷ r) h = elim (Option-cases (index_of_code (x ∷ r))) [
  | inl e ↦ rw (e, split_loop) (λ p. cc)
  | inr (i, e) ↦ elim (Bool-cases (ltb 0 i && get_or (x ∷ r) (i - 1) 1 == 0)) [
    | inl four ↦
        rw (e, split_loop)
          (rw four (
            ground (
              arith,
              length-drop 4 (x ∷ r),
              length-drop (i - 1 + 4) (x ∷ r),
              split-ne-stuck f (drop 4 (x ∷ r)),
              split-ne-stuck f (drop (i - 1 + 4) (x ∷ r)),
            )))
    | inr three ↦
        rw (e, split_loop)
          (rw three (
            ground (
              arith,
              length-drop 3 (x ∷ r),
              length-drop (i + 3) (x ∷ r),
              split-ne-stuck f (drop 3 (x ∷ r)),
              split-ne-stuck f (drop (i + 3) (x ∷ r)),
            )))
  ]
]

stapa-ne-stuck :
    (f : ℕ) (b : List ℕ) (ns : List (List ℕ)) → length b < f → stapa_loop f b ns ≢ err stuck
unfolding stapa_loop
stapa-ne-stuck zero b ns h = absurd (omega arith)
stapa-ne-stuck (suc f) [] ns h = λ e. cc
stapa-ne-stuck (suc f) (a ∷ []) ns h = λ e. cc
stapa-ne-stuck (suc f) (a ∷ b ∷ rest) ns h =
    let size = bit_or (a * 2 ^ 8 % 2 ^ 16) b in
    ground (
      arith,
      length-drop size rest,
      stapa-ne-stuck f (drop size rest) (ns ++ (take size rest ∷ [])),
    )

finish-ne-stuck : (d : Decoder) → (finish_fua d).0 ≢ err stuck
unfolding finish_fua split_nalus_annexb
finish-ne-stuck d =
    let b = join_fragments d.fragments d.fragments_size in
    split-ne-stuck (suc (length b)) b (omega arith)

pick-ne-stuck :
    (last : Bool) (d d' : Decoder)
    → (if last then finish_fua d else (err need_more_packets, d')).0 ≢ err stuck
pick-ne-stuck true d d' = finish-ne-stuck d
pick-ne-stuck false d d' = λ e. cc

start-ne-stuck :
    (d : Decoder) (pkt : RtpPacket) (b0 b1 : ℕ) (rest : List ℕ)
    → (start_fua d pkt b0 b1 rest).0 ≢ err stuck
unfolding start_fua
start-ne-stuck d pkt b0 b1 rest = pick-ne-stuck (bit_and (b1 / 2 ^ 6) 0x01 == 1) _ _

continue-ne-stuck :
    (d : Decoder) (pkt : RtpPacket) (b1 : ℕ) (rest : List ℕ)
    → (continue_fua d pkt b1 rest).0 ≢ err stuck
unfolding continue_fua
continue-ne-stuck d pkt b1 rest =
    by_tests (d.fragments_size == 0) d.first_packet_received
      (not (pkt.sequence_number == d.fragment_next_seq_num))
      (ltb max_access_unit_size (d.fragments_size + length rest)) (bit_and (b1 / 2 ^ 6) 0x01 == 1) _
  where
    by_tests :
        (none_yet first lost big last : Bool) (d' : Decoder)
        → (if none_yet
            then (err (if first then non_starting_fua_packet else need_more_packets), d)
            else if lost
            then (err packet_loss_while_decoding_fua, reset_fragments d)
            else if big
            then (err access_unit_too_big, reset_fragments d)
            else if not last
            then (err need_more_packets, d')
            else finish_fua d').0
          ≢ err stuck
    by_tests true true lost big last d' = λ e. cc
    by_tests true false lost big last d' = λ e. cc
    by_tests false first true big last d' = λ e. cc
    by_tests false first false true last d' = λ e. cc
    by_tests false first false false true d' = finish-ne-stuck d'
    by_tests false first false false false d' = λ e. cc

nalus-ne-stuck :
    (d : Decoder) (pkt : RtpPacket) (payload : List ℕ) → (decode_nalus d pkt payload).0 ≢ err stuck
unfolding decode_nalus decode_fua decode_stapa
nalus-ne-stuck d pkt [] = λ e. cc
nalus-ne-stuck d pkt (b0 ∷ []) = ground (arith, stapa-ne-stuck 1 [] [])
nalus-ne-stuck d pkt (b0 ∷ b1 ∷ rest) = ground (
  arith,
  start-ne-stuck d pkt b0 b1 rest,
  continue-ne-stuck d pkt b1 rest,
  stapa-ne-stuck (suc (length (b1 ∷ rest))) (b1 ∷ rest) [],
)

collect-ne-stuck :
    (d : Decoder) (pkt : RtpPacket) (nalus : List (List ℕ)) → (collect d pkt nalus).0 ≢ err stuck
unfolding collect add_to_frame_buffer
collect-ne-stuck d pkt nalus = ground arith

-- `Decode` answers every packet in every state: its loops over start codes and over the units of a
-- STAP-A payload end.
pub decode-ne-stuck : (d : Decoder) (pkt : RtpPacket) → (decode d pkt).0 ≢ err stuck
unfolding decode
decode-ne-stuck d pkt = go (decode_nalus d pkt pkt.payload) (nalus-ne-stuck d pkt pkt.payload)
  where
    go :
        (a : Answer)
        → a.0 ≢ err stuck
        → (elim a.0 as (λ _. Answer) [ err e ↦ (err e, a.1) | ok nalus ↦ collect a.1 pkt nalus ]).0
          ≢ err stuck
    go (err e, d') h = λ p. h (cc)
    go (ok nalus, d') h = collect-ne-stuck d' pkt nalus
