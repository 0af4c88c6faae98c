-- ===== src/Relay/Muxing.antt =====
-- av/relayhub/consumer.go: the goroutine that drives a consumer's muxers.
-- The muxer factory and the muxers are not known to it but by their answers: each call takes the next
-- of a list of answers, and a call past the end of the list succeeds. The calls are logged with the
-- number of the muxer that they go to. The remover callback, whose result is ignored, is left out.
pub mod Written
pub mod Status
pub mod Closed
mod Tests
use vrtc_sdk.Prelude.{
  ℕ, suc, ◌+◌, Bool, true, false, Option, none, some, List, [], ◌∷◌, ◌++◌, if◌then◌else◌,
}
use vrtc_sdk.Av.{Stream, Packet}
use vrtc_sdk.Relay.Consumer.{
  Consumer, Error, set_last_error, other, consumer_mux_factory, muxer_write_header,
  muxer_write_codec_change, muxer_write_packet,
}

-- How the factory or a muxer answers: it succeeds, asks for a new muxer, or fails otherwise.
pub data Answer : Type 0 where
  fine rotate broken : Answer

pub data Call : Type 0 where
  open_muxer : Call
  header : List Stream → Call
  codec_change : List Stream → Call
  packet : Packet → Call
  trailer : Call
  close_muxer : Call

-- `log` is newest last: the muxer's number, the call, and its answer.
pub record World : Type 0 where
  pub answers : List Answer
  pub log : List (ℕ × Call × Answer)
  pub opened : ℕ

pub call : World → ℕ → Call → Answer × World
call w n c = elim w.answers [
  | [] ↦ (fine, record w { log = w.log ++ ((n, c, fine) ∷ []) })
  | a ∷ rest ↦ (a, record w { answers = rest; log = w.log ++ ((n, c, a) ∷ []) })
]

-- `closeMuxer`: both answers are ignored.
pub close_mux : World → ℕ → World
unfolding call
close_mux w n = let (_, w') = call w n trailer in let (_, w'') = call w' n close_muxer in w''

-- `openAndInitMuxer`: an answer that is not `fine` is an error. It returns the number of the muxer.
pub open_and_init_muxer : World → List Stream → (Option Error × ℕ) × World
unfolding call close_mux
open_and_init_muxer w headers =
    let n = w.opened in
    let (opened, w1) = call w n open_muxer in
    let (wrote, w2) = call (record w1 { opened = suc n }) n (header headers) in
    elim opened [
      | fine ↦ elim wrote [
        | fine ↦ ((none, n), w2)
        | _ ↦ ((some muxer_write_header, n), close_mux w2 n)
      ]
      | _ ↦ ((some consumer_mux_factory, n), w1)
    ]

-- `rotateMuxer`: the error, and the muxer that the caller goes on with. The counter is left out.
pub rotate_muxer : World → List Stream → ℕ → Packet → (Option Error × ℕ) × World
unfolding open_and_init_muxer call close_mux
rotate_muxer w headers muxer pkt =
    let ((e, new), w1) = open_and_init_muxer (close_mux w muxer) headers in
    let (wrote, w2) = call w1 new (packet pkt) in
    elim e [
      | some x ↦ ((some x, muxer), w1)
      | none ↦ elim wrote [
        | fine ↦ ((none, new), w2)
        | _ ↦ ((some muxer_write_packet, muxer), close_mux w2 new)
      ]
    ]

-- `changer` is whether the muxers are CodecChangers.
pub change_codec : World → Bool → ℕ → Packet → Option Error × World
unfolding call
change_codec w changer muxer pkt = elim pkt.new_codecs [
  | none ↦ (none, w)
  | some streams ↦
      let (a, w') = call w muxer (codec_change streams) in
      if changer
      then elim a [ fine ↦ (none, w') | _ ↦ (some muxer_write_codec_change, w') ]
      else (none, w)
]

pub handle_packet : World → Bool → List Stream → ℕ → Packet → (Option Error × ℕ) × World
unfolding change_codec rotate_muxer call
handle_packet w changer headers muxer pkt =
    let (e, w1) = change_codec w changer muxer pkt in
    let (a, w2) = call w1 muxer (packet pkt) in
    elim e [
      | some x ↦ ((some x, muxer), w1)
      | none ↦ elim a [
        | fine ↦ ((none, muxer), w2)
        | rotate ↦ rotate_muxer w2 headers muxer pkt
        | broken ↦ ((some muxer_write_packet, muxer), w2)
      ]
    ]

-- The packets that the loop takes before its context is finished.
pub packet_loop : World → Bool → List Stream → ℕ → List Packet → (Option Error × ℕ) × World
unfolding handle_packet
packet_loop w changer headers muxer [] = ((none, muxer), w)
packet_loop w changer headers muxer (p ∷ ps) =
    let ((e, muxer'), w') = handle_packet w changer headers muxer p in
    elim e [ some x ↦ ((some x, muxer'), w') | none ↦ packet_loop w' changer headers muxer' ps ]

-- `run`, from the headers on, with the deferred calls.
pub run : World → Bool → List Stream → List Packet → Option Error × World
unfolding packet_loop open_and_init_muxer close_mux
run w changer headers ps =
    let ((e, muxer), w1) = open_and_init_muxer w headers in
    let ((e', muxer'), w2) = packet_loop w1 changer headers muxer ps in
    elim e [ some x ↦ (some x, w1) | none ↦ (e', close_mux w2 muxer') ]
