-- ===== src/Relay/Registry.antt =====
-- av/relayhub/relay.go: a relay, its consumers, and what one packet does to them.
-- A section under the relay's lock is one step. `AddConsumer` takes the lock twice, so it is in parts:
-- `check_add` before the headers, `attach` on a consumer that no one else sees, and `enlist`. A function
-- that waits is `none` until it can go on. The map of consumers is a list, in any order.
pub mod Ids
pub mod World
pub mod Members
pub mod Overlap
pub mod Handoff
mod Tests
use vrtc_sdk.Prelude.{
  ℕ, ◌+◌, ◌*◌, ◌%◌, ◌^◌, Bool, true, false, not, ◌&&◌, ◌||◌, Option, none, some, ◌>>=◌, List, [],
  ◌∷◌, ◌++◌,
}
use vrtc_sdk.Prelude.{ltb, leb, ◌==◌, if◌then◌else◌, length}
use vrtc_sdk.Av.{Stream, Packet, is_video}
use vrtc_sdk.PacketBuf
use vrtc_sdk.PacketBuf.{Buffer, last_gop}
use vrtc_sdk.Relay.Consumer.{
  Consumer, Error, new_consumer, start, close, write_header, write_packet, set_skip_before,
  offer_leaky, offer_blocking,
}
use vrtc_sdk.Relay.Consumer.{
  relay_closing, relay_not_started_yet, relay_already_started, max_consumers_reached,
  consumer_already_exists, codecs_not_available,
}
use text.Mathlib.Text.{◌==◌ as str_eq}
use Prim.Native.String.{String}

pub record Relay : Type 0 where
  pub closing : Bool
  pub started : Bool
  -- Whether `sctx` is set.
  pub has_context : Bool
  pub consumers : List Consumer
  pub headers : List Stream
  pub headers_err : Option Error
  pub headers_available : Bool
  pub pkt_buf : Buffer
  pub max_consumers : ℕ
  pub packet_buf_window : ℕ
  pub consumer_queue_size : ℕ
  pub packets_read : ℕ
  pub video_packets_read : ℕ
  pub bytes_read : ℕ
  pub key_frames : ℕ
  pub dropped_packets : ℕ
  pub last_packet_at : ℕ

-- The three options of the hub, with 0 for none.
pub new_relay : ℕ → ℕ → ℕ → Relay
new_relay max_consumers packet_buf_window consumer_queue_size = record {
  closing = false;
  started = false;
  has_context = false;
  consumers = [];
  headers = [];
  headers_err = none;
  headers_available = false;
  pkt_buf = PacketBuf.new 0;
  max_consumers = max_consumers;
  packet_buf_window = packet_buf_window;
  consumer_queue_size = consumer_queue_size;
  packets_read = 0;
  video_packets_read = 0;
  bytes_read = 0;
  key_frames = 0;
  dropped_packets = 0;
  last_packet_at = 0;
}

-- `Start`, up to the launch of the goroutine. Thirty seconds are counted in nanoseconds.
pub start_relay : Relay → Option Error × Relay
start_relay r =
    let window = if ltb 0 r.packet_buf_window then r.packet_buf_window else 30 * 10 ^ 9 in
    let r' = record r { started = true } in
    if r.started
    then (some relay_already_started, r)
    else if r.closing
    then (some relay_closing, r')
    else (none, record r' { pkt_buf = PacketBuf.new window; has_context = true })

pub set_last_codec_error : Relay → Error → Relay
set_last_codec_error r e = record r { headers_err = some e; headers_available = true }

-- The goroutine has the codecs of its demuxer.
pub set_headers : Relay → List Stream → Relay
set_headers r streams = record r {
  headers = streams;
  headers_available = true;
  pkt_buf = PacketBuf.write_header r.pkt_buf streams;
}

pub get_codecs : Relay → Option (List Stream × Option Error)
get_codecs r = if r.headers_available then some (r.headers, r.headers_err) else none

pub consumer_count : Relay → ℕ
consumer_count r = length r.consumers

pub has_consumer : String → List Consumer → Bool
has_consumer id [] = false
has_consumer id (c ∷ cs) = str_eq c.id id || has_consumer id cs

-- The guards of `AddConsumer` before it waits for the codecs.
pub check_add : Relay → String → Option Error
unfolding has_consumer
check_add r id =
    if r.closing
    then some relay_closing
    else if not r.started
    then some relay_not_started_yet
    else elim r.headers_err [
      | some e ↦ some e
      | none ↦
          if ltb 0 r.max_consumers && leb r.max_consumers (length r.consumers)
          then some max_consumers_reached
          else if has_consumer id r.consumers
          then some consumer_already_exists
          else if not r.has_context
          then some relay_not_started_yet
          else none
    ]

pub inject : Consumer → List Packet → Option Consumer
inject c [] = some c
inject c (p ∷ ps) = write_packet c p >>= λ c'. inject c' ps

pub last_of : Packet → List Packet → Packet
last_of p [] = p
last_of p (q ∷ qs) = last_of q qs

-- The packets since the last keyframe, ahead of the live ones.
pub replay : Buffer → Consumer → Option Consumer
unfolding inject last_of
replay b c = elim (last_gop b) [
  | none ↦ some c
  | some [] ↦ some c
  | some (p ∷ ps) ↦ inject c (p ∷ ps) >>= λ c'. some (set_skip_before c' (last_of p ps).dts)
]

-- `AddConsumer` between its two sections under the lock; the context of the call is not finished.
pub attach : Relay → String → Bool → Option (Option Error × Consumer)
unfolding replay
attach r id has_err_ch =
    let size = if ltb 0 r.consumer_queue_size then r.consumer_queue_size else 50 in
    let (_, c) = start (new_consumer id has_err_ch size) in
    get_codecs r >>= λ (streams, e). elim e [
      | some x ↦ some (some x, c)
      | none ↦
          let (e', c') = write_header c streams false in
          elim e' [
            | some x ↦ some (some x, c')
            | none ↦ replay r.pkt_buf c' >>= λ c''. some (none, c'')
          ]
    ]

-- The last section: the consumer becomes visible.
pub enlist : Relay → Consumer → Option Error × Relay
unfolding has_consumer
enlist r c =
    if r.closing
    then (some relay_closing, r)
    else if has_consumer c.id r.consumers
    then (some consumer_already_exists, r)
    else (none, record r { consumers = r.consumers ++ (c ∷ []) })

pub delete : String → List Consumer → List Consumer
delete id [] = []
delete id (c ∷ cs) = if str_eq c.id id then delete id cs else c ∷ delete id cs

pub remove_consumer : Relay → String → Relay
unfolding delete
remove_consumer r id = record r { consumers = delete id r.consumers }

pub actives : List Consumer → List Consumer
actives [] = []
actives (c ∷ cs) = if c.inactive then actives cs else c ∷ actives cs

-- One tick of the relay's ticker.
pub sweep : Relay → Relay
unfolding actives
sweep r = record r { consumers = actives r.consumers }

-- `Close`, up to the call of `cancel`.
pub close_relay : Relay → Relay
close_relay r = if r.closing then r else record r { closing = true }

-- What the goroutine of `Start` defers, once `sctx` is done or the demuxer has no codecs.
pub clear_consumers : Relay → Relay
clear_consumers r = record r { consumers = [] }

-- The end of the first `Close`, after `wg.Wait`.
pub close_buffer : Relay → Relay
close_buffer r = record r { pkt_buf = PacketBuf.close r.pkt_buf }

-- The counters and the buffer, in one round of `readWriteLoop`, with the three readings of the clock.
pub store_packet : Relay → Packet → ℕ → ℕ → ℕ → Relay
store_packet r pkt at stamp now =
    let b = elim pkt.new_codecs as (λ _. Buffer) [
      | none ↦ r.pkt_buf
      | some streams ↦ PacketBuf.write_header r.pkt_buf streams
    ] in
    record r {
      packets_read = (r.packets_read + 1) % 2 ^ 64;
      bytes_read = (r.bytes_read + length pkt.payload) % 2 ^ 64;
      video_packets_read =
          if is_video pkt.codec_type
          then (r.video_packets_read + 1) % 2 ^ 64
          else r.video_packets_read;
      key_frames = if pkt.key_frame then (r.key_frames + 1) % 2 ^ 64 else r.key_frames;
      last_packet_at = at;
      headers = elim pkt.new_codecs as (λ _. List Stream) [
        | none ↦ r.headers
        | some streams ↦ streams
      ];
      pkt_buf = PacketBuf.write_packet b pkt stamp now;
    }

pub is_active : Consumer → Bool
is_active c = elim c.headers_err [ some e ↦ false | none ↦ not c.inactive ]

pub count_active : List Consumer → ℕ
unfolding is_active
count_active [] = 0
count_active (c ∷ cs) = if is_active c then count_active cs + 1 else count_active cs

-- Delivery with back-pressure, to the one active consumer.
pub deliver_blocking : List Consumer → Packet → Option (List Consumer)
unfolding is_active
deliver_blocking [] pkt = some []
deliver_blocking (c ∷ cs) pkt =
    let here = offer_blocking c pkt >>= λ c'. some (c' ∷ cs) in
    let there = deliver_blocking cs pkt >>= λ cs'. some (c ∷ cs') in
    if is_active c then here else there

-- Delivery that never waits, with the number of packets dropped.
pub deliver_leaky : List Consumer → Packet → ℕ × List Consumer
unfolding is_active
deliver_leaky [] pkt = (0, [])
deliver_leaky (c ∷ cs) pkt =
    let (n, cs') = deliver_leaky cs pkt in
    let (m, c') = offer_leaky c pkt in if is_active c then (m + n, c' ∷ cs') else (n, c ∷ cs')

-- The rest of the round: `none` waits for the only active consumer.
pub deliver : Relay → Packet → Option Relay
unfolding count_active deliver_blocking deliver_leaky
deliver r pkt =
    let (n, cs) = deliver_leaky r.consumers pkt in
    if count_active r.consumers == 1
    then (deliver_blocking r.consumers pkt >>= λ cs'. some (record r { consumers = cs' }))
    else some (record r { consumers = cs; dropped_packets = (r.dropped_packets + n) % 2 ^ 64 })
