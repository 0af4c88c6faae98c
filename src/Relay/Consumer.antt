-- ===== src/Relay/Consumer.antt =====
-- av/relayhub/consumer.go: the state of a consumer and its methods, but for the muxer's goroutine.
-- A method is one step: its atomics and locks are never held across a wait. The channel of packets is a
-- list with a capacity, and a send that finds it full either waits (`none`) or drops.
pub mod Recovery
mod Tests
use vrtc_sdk.Prelude.{ℕ, ◌+◌, Bool, true, false, not, Option, none, some, List, [], ◌∷◌, ◌++◌}
use vrtc_sdk.Prelude.{ltb, ◌==◌, if◌then◌else◌, length}
use vrtc_sdk.Prelude.Int.{ℤ, pos, ltb_ℤ}
use vrtc_sdk.Av.{Stream, Packet}
use Prim.Native.String.{String}

-- The errors of av/relayhub/errors.go; `other` is an error of the code that it calls.
pub data Error : Type 0 where
  relay_hub_closing relay_hub_not_started_yet relay_hub_already_started : Error
  relay_closing relay_not_started_yet relay_already_started relay_not_found : Error
  relay_demux_factory relay_last_error : Error
  consumer_closing consumer_already_started consumer_already_exists consumer_mux_factory : Error
  muxer_write_header muxer_write_codec_change muxer_write_packet muxer_rotate : Error
  codecs_not_available dropping_packet max_consumers_reached : Error
  other : ℕ → Error

-- What the muxer's goroutine can receive from `headersAvailable`: nothing yet, headers, or the closed
-- channel.
pub data Available : Type 0 where
  pending sent closed : Available

pub record Consumer : Type 0 where
  pub id : String
  pub has_err_ch : Bool
  pub closing : Bool
  pub started : Bool
  pub inactive : Bool
  pub wrote_header : Bool
  pub headers : List Stream
  pub headers_err : Option Error
  pub headers_available : Available
  pub packets : List Packet
  pub queue_size : ℕ
  pub skip_before : ℤ
  pub skip_before_set : Bool
  pub needs_keyframe : Bool
  pub rotations : ℕ
  pub skips : ℕ

-- A queue size below 0 is 0 here.
unfoldable pub new_consumer : String → Bool → ℕ → Consumer
new_consumer id has_err_ch queue_size = record {
  id = id;
  has_err_ch = has_err_ch;
  closing = false;
  started = false;
  inactive = false;
  wrote_header = false;
  headers = [];
  headers_err = none;
  headers_available = pending;
  packets = [];
  queue_size = if queue_size == 0 then 50 else queue_size;
  skip_before = pos 0;
  skip_before_set = false;
  needs_keyframe = false;
  rotations = 0;
  skips = 0;
}

-- `Start`, up to the launch of the goroutine.
pub start : Consumer → Option Error × Consumer
start c =
    if c.started
    then (some consumer_already_started, c)
    else (if c.closing then some consumer_closing else none, record c { started = true })

pub close : Consumer → Consumer
close c = if c.closing then c else record c { closing = true; inactive = true }

-- The send on `errCh` never waits.
pub set_last_error : Consumer → Error → Consumer
set_last_error c e = record c {
  headers_err = some e;
  inactive = if c.has_err_ch then true else c.inactive;
}

pub write_codec_change : Consumer → List Stream → Consumer
write_codec_change c changed = record c { headers = changed }

-- `done` is the choice of the select between the finished context and the send.
pub write_header : Consumer → List Stream → Bool → Option Error × Consumer
unfolding set_last_error write_codec_change
write_header c streams done =
    let once = record c { wrote_header = true } in
    let c' =
      if c.wrote_header
      then c
      else if length streams == 0
      then record (set_last_error once codecs_not_available) { headers_available = closed }
      else record (write_codec_change once streams) {
        headers_available = if done then closed else sent;
      } in
    (c'.headers_err, c')

unfoldable pub set_skip_before : Consumer → ℤ → Consumer
set_skip_before c dts = record c { skip_before = dts; skip_before_set = true }

pub needs_keyframe_recovery : Consumer → Packet → Bool × Consumer
needs_keyframe_recovery c pkt =
    if not c.needs_keyframe
    then (false, c)
    else if not pkt.key_frame
    then (true, record c { skips = c.skips + 1 })
    else (false, record c { needs_keyframe = false })

pub should_skip : Consumer → Packet → Bool × Consumer
should_skip c pkt =
    if not c.skip_before_set
    then (false, c)
    else if ltb_ℤ pkt.dts c.skip_before
    then (true, c)
    else (false, record c { skip_before_set = false })

-- `none` is a call that waits for room in the queue.
pub write_packet : Consumer → Packet → Option Consumer
write_packet c pkt =
    if ltb (length c.packets) c.queue_size
    then some (record c { packets = c.packets ++ (pkt ∷ []) })
    else none

-- The context of the relay is not finished here; a full queue takes the default branch.
pub write_packet_leaky : Consumer → Packet → Option Error × Consumer
write_packet_leaky c pkt =
    if ltb (length c.packets) c.queue_size
    then (none, record c { packets = c.packets ++ (pkt ∷ []) })
    else (some dropping_packet, c)

-- The goroutine of the consumer takes a packet.
pub take_packet : Consumer → Option Packet × Consumer
take_packet c = elim c.packets [ [] ↦ (none, c) | p ∷ ps ↦ (some p, record c { packets = ps }) ]

-- One turn of the loop of `readWriteLoop` over two consumers or more, at one of them; the number of
-- dropped packets is the relay's counter.
pub offer_leaky : Consumer → Packet → ℕ × Consumer
unfolding should_skip needs_keyframe_recovery write_packet_leaky
offer_leaky c pkt =
    let (skip, c1) = should_skip c pkt in
    let (wait, c2) = needs_keyframe_recovery c1 pkt in
    let (e, c3) = write_packet_leaky c2 pkt in
    if skip
    then (0, c1)
    else if wait
    then (0, c2)
    else elim e [ none ↦ (0, c3) | some _ ↦ (1, record c3 { needs_keyframe = true }) ]

-- The same over a single consumer.
pub offer_blocking : Consumer → Packet → Option Consumer
unfolding should_skip write_packet
offer_blocking c pkt =
    let (skip, c1) = should_skip c pkt in if skip then some c1 else write_packet c1 pkt
