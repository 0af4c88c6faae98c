-- ===== src/Rtp/H264.antt =====
-- av/format/rtsp/h264_rtp_decoder.go: H.264 access units out of RTP packets.
-- github.com/pion/rtp gives the packets; the code reads four of their fields. An access unit is a list
-- of NALUs, and the nil frame buffer is the empty list, since appending nothing to nil gives nil.
pub mod Bounds
pub mod Total
pub mod Fua
mod Tests
use vrtc_sdk.Prelude.{
  ℕ, zero, suc, ◌+◌, ◌-◌, ◌*◌, ◌/◌, ◌%◌, ◌^◌, bit_and, bit_or, Bool, true, false, not, ◌&&◌,
}
use vrtc_sdk.Prelude.{
  Option, none, some, List, [], ◌∷◌, ◌++◌, ltb, ◌==◌, if◌then◌else◌, length, take, drop, get_or,
}

pub record RtpPacket : Type 0 where
  pub payload : List ℕ
  pub sequence_number : ℕ
  pub timestamp : ℕ
  pub marker : Bool

pub data Error : Type 0 where
  need_more_packets payload_too_short invalid_fua_packet non_starting_fua_packet : Error
  packet_loss_while_decoding_fua invalid_stapa_packet invalid_stapa_payload_size : Error
  access_unit_too_big too_many_nalus_in_access_unit : Error
  -- The loop of the model ran out of fuel.
  stuck : Error

pub data Result {ℓ} (A : Type ℓ) : Type ℓ where
  ok : A → Result A
  err : Error → Result A

abbrev pub max_access_unit_size : ℕ
max_access_unit_size = 4 * 1024 * 1024

abbrev pub max_nalus_per_au : ℕ
max_nalus_per_au = 512

pub record Decoder : Type 0 where
  pub first_packet_received : Bool
  pub fragments : List (List ℕ)
  pub fragments_size : ℕ
  pub fragment_next_seq_num : ℕ
  pub frame_buffer : List (List ℕ)
  pub frame_buffer_len : ℕ
  pub frame_buffer_size : ℕ
  pub frame_buffer_timestamp : ℕ

pub new_decoder : Decoder
new_decoder = record {
  first_packet_received = false;
  fragments = [];
  fragments_size = 0;
  fragment_next_seq_num = 0;
  frame_buffer = [];
  frame_buffer_len = 0;
  frame_buffer_size = 0;
  frame_buffer_timestamp = 0;
}

unfoldable pub access_unit_size : List (List ℕ) → ℕ
access_unit_size [] = 0
access_unit_size (n ∷ ns) = length n + access_unit_size ns

pub replicate_zero : ℕ → List ℕ
replicate_zero zero = []
replicate_zero (suc n) = 0 ∷ replicate_zero n

pub flatten : List (List ℕ) → List ℕ
flatten [] = []
flatten (p ∷ ps) = p ++ flatten ps

-- `copy` stops at the end of `ret`, and what is not written stays 0.
pub join_fragments : List (List ℕ) → ℕ → List ℕ
unfolding flatten replicate_zero
join_fragments fragments size = take size (flatten fragments ++ replicate_zero size)

-- `bytes.Index(b, {0, 0, 1})`.
pub index_of_code : List ℕ → Option ℕ
index_of_code [] = none
index_of_code (x ∷ r) =
    let rest = elim (index_of_code r) as (λ _. Option ℕ) [ none ↦ none | some i ↦ some (suc i) ] in
    if x == 0 && (get_or r 0 1 == 0 && get_or r 1 0 == 1) then some 0 else rest

pub split_loop : ℕ → List ℕ → Result (List (List ℕ))
split_loop zero b = err stuck
split_loop (suc fuel) [] = ok []
split_loop (suc fuel) (x ∷ r) = elim (index_of_code (x ∷ r)) [
  | none ↦ ok ((x ∷ r) ∷ [])
  | some i ↦
      let b = x ∷ r in
      let four = ltb 0 i && get_or b (i - 1) 1 == 0 in
      let idx = if four then i - 1 else i in
      let sz = if four then 4 else 3 in
      let skip = split_loop fuel (drop sz b) in
      let more = elim (split_loop fuel (drop (idx + sz) b)) as (λ _. Result (List (List ℕ))) [
        | ok ns ↦ ok (take idx b ∷ ns)
        | err e ↦ err e
      ] in
      if idx == 0 then skip else more
]

pub split_nalus_annexb : List ℕ → Result (List (List ℕ))
unfolding split_loop index_of_code
split_nalus_annexb b = split_loop (suc (length b)) b

pub reset_fragments : Decoder → Decoder
reset_fragments d = record d { fragments = []; fragments_size = 0 }

pub reset_frame_buffer : Decoder → Decoder
reset_frame_buffer d = record d { frame_buffer = []; frame_buffer_len = 0; frame_buffer_size = 0 }

abbrev pub Answer : Type 0
Answer = Result (List (List ℕ)) × Decoder

-- The end of a fragmented NALU.
pub finish_fua : Decoder → Answer
finish_fua d = (split_nalus_annexb (join_fragments d.fragments d.fragments_size), reset_fragments d)

pub start_fua : Decoder → RtpPacket → ℕ → ℕ → List ℕ → Answer
start_fua d pkt b0 b1 rest =
    let nri = bit_and (b0 / 2 ^ 5) 0x03 in
    let nalu_type = bit_and b1 0x1F in
    let end_ = bit_and (b1 / 2 ^ 6) 0x01 in
    let d' = record (reset_fragments d) {
      fragments_size = suc (length rest);
      fragments = (bit_or (nri * 2 ^ 5 % 256) nalu_type ∷ []) ∷ rest ∷ [];
      fragment_next_seq_num = (pkt.sequence_number + 1) % 2 ^ 16;
      first_packet_received = true;
    } in
    if end_ == 1 then finish_fua d' else (err need_more_packets, d')

pub continue_fua : Decoder → RtpPacket → ℕ → List ℕ → Answer
continue_fua d pkt b1 rest =
    let end_ = bit_and (b1 / 2 ^ 6) 0x01 in
    let size = d.fragments_size + length rest in
    let d' = record d {
      fragments_size = size;
      fragments = d.fragments ++ (rest ∷ []);
      fragment_next_seq_num = (d.fragment_next_seq_num + 1) % 2 ^ 16;
    } in
    if d.fragments_size == 0
    then (err (if d.first_packet_received then non_starting_fua_packet else need_more_packets), d)
    else if not (pkt.sequence_number == d.fragment_next_seq_num)
    then (err packet_loss_while_decoding_fua, reset_fragments d)
    else if ltb max_access_unit_size size
    then (err access_unit_too_big, reset_fragments d)
    else if not (end_ == 1)
    then (err need_more_packets, d')
    else finish_fua d'

pub decode_fua : Decoder → RtpPacket → List ℕ → Answer
decode_fua d pkt (b0 ∷ b1 ∷ rest) =
    if b1 / 2 ^ 7 == 1 then start_fua d pkt b0 b1 rest else continue_fua d pkt b1 rest
decode_fua d pkt _ = (err invalid_fua_packet, reset_fragments d)

-- The loop over the units of a STAP-A payload.
pub stapa_loop : ℕ → List ℕ → List (List ℕ) → Result (List (List ℕ))
stapa_loop zero payload nalus = err stuck
stapa_loop (suc fuel) (a ∷ b ∷ rest) nalus =
    let size = bit_or (a * 2 ^ 8 % 2 ^ 16) b in
    let nalus' = nalus ++ (take size rest ∷ []) in
    let again = stapa_loop fuel (drop size rest) nalus' in
    if size == 0
    then err invalid_stapa_payload_size
    else if ltb (length rest) size
    then err invalid_stapa_payload_size
    else if length (drop size rest) == 0
    then ok nalus'
    else again
stapa_loop (suc fuel) _ nalus = err invalid_stapa_packet

pub decode_stapa : Decoder → List ℕ → Answer
decode_stapa d payload =
    let d' = reset_fragments d in
    elim (stapa_loop (suc (length payload)) payload []) [
      | ok nalus ↦ (ok nalus, record d' { first_packet_received = true })
      | err e ↦ (err e, d')
    ]

pub decode_nalus : Decoder → RtpPacket → List ℕ → Answer
decode_nalus d pkt [] = (err payload_too_short, reset_fragments d)
decode_nalus d pkt (b0 ∷ rest) =
    let typ = bit_and b0 0x1F in
    if typ == 28
    then decode_fua d pkt (b0 ∷ rest)
    else if typ == 24
    then decode_stapa d rest
    else (ok ((b0 ∷ rest) ∷ []), record (reset_fragments d) { first_packet_received = true })

pub add_to_frame_buffer : Decoder → List (List ℕ) → ℕ → ℕ → Result (Unit {0}) × Decoder
add_to_frame_buffer d nalus l ts =
    let add_size = access_unit_size nalus in
    if ltb max_nalus_per_au (d.frame_buffer_len + l)
    then (err too_many_nalus_in_access_unit, reset_frame_buffer d)
    else if ltb max_access_unit_size (d.frame_buffer_size + add_size)
    then (err access_unit_too_big, reset_frame_buffer d)
    else (
      ok tt,
      record d {
        frame_buffer = d.frame_buffer ++ nalus;
        frame_buffer_len = d.frame_buffer_len + l;
        frame_buffer_size = d.frame_buffer_size + add_size;
        frame_buffer_timestamp = ts;
      },
    )

-- The part of `Decode` after the NALUs of the packet are there.
pub collect : Decoder → RtpPacket → List (List ℕ) → Answer
collect d pkt nalus =
    let l = length nalus in
    let split =
      not (length d.frame_buffer == 0) && not (pkt.timestamp == d.frame_buffer_timestamp) in
    let (r, d') =
      add_to_frame_buffer (if split then reset_frame_buffer d else d) nalus l pkt.timestamp in
    elim r [
      | err e ↦ (err e, d')
      | ok _ ↦
          if split
          then (ok d.frame_buffer, d')
          else if not pkt.marker
          then (err need_more_packets, d')
          else (ok d'.frame_buffer, reset_frame_buffer d')
    ]

pub decode : Decoder → RtpPacket → Answer
decode d pkt =
    let (r, d') = decode_nalus d pkt pkt.payload in
    elim r [ err e ↦ (err e, d') | ok nalus ↦ collect d' pkt nalus ]
