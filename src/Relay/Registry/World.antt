-- ===== src/Relay/Registry/World.antt =====
-- A relay while several calls, its goroutine and its consumers' goroutines run: one step is one section
-- under the relay's lock, or one operation that needs none.
use vrtc_sdk.Prelude.{ℕ, ◌<◌, ◌≡◌, Bool, false, ◌||◌, none, some, List, [], ◌∷◌, ◌++◌}
use vrtc_sdk.Prelude.{length}
use vrtc_sdk.Av.{Packet, Stream}
use vrtc_sdk.Relay.Consumer.{Consumer, Error}
use vrtc_sdk.Relay.Registry.{
  Relay, new_relay, start_relay, set_headers, set_last_codec_error, check_add, enlist,
  remove_consumer, sweep, close_relay, clear_consumers, close_buffer, store_packet, deliver,
}
use vrtc_sdk.Relay.Registry.Ids.{SameIds}
use Prim.Native.String.{String}

-- The relay, the ids of the calls of `AddConsumer` that have passed their first guards, and whether
-- the deferred deletion of the relay's goroutine has run on a closing relay.
pub record World : Type 0 where
  pub relay : Relay
  pub calls : List String
  pub cleared : Bool

abbrev pub on_relay : World → Relay → World
on_relay w r = record w { relay = r }

-- The operations that change no membership: the start, the goroutine's writes and the end of `Close`.
pub data Keeps (r : Relay) : Relay → Type 0 where
  starts : Keeps r (start_relay r).1
  headers_come : (streams : List Stream) → Keeps r (set_headers r streams)
  fails : (e : Error) → Keeps r (set_last_codec_error r e)
  stores : (pkt : Packet) (at stamp now : ℕ) → Keeps r (store_packet r pkt at stamp now)
  closes_buffer : Keeps r (close_buffer r)

-- What may happen under the relay's lock, with at most `k` calls of `AddConsumer` in flight; the
-- consumers' goroutines and deliveries change consumers in place, and the relay's goroutine may end
-- at any time.
pub data Step (k : ℕ) (w w' : World) : Type 0 where
  keeps : (r : Relay) → Keeps w.relay r → w' ≡ on_relay w r → Step k w w'
  begins :
      (id : String)
      → check_add w.relay id ≡ none
      → length w.calls < k
      → w' ≡ record w { calls = id ∷ w.calls }
      → Step k w w'
  finishes :
      (front back : List String) (c : Consumer)
      → w.calls ≡ front ++ (c.id ∷ back)
      → w' ≡ record w { relay = (enlist w.relay c).1; calls = front ++ back }
      → Step k w w'
  gives_up :
      (front back : List String) (id : String)
      → w.calls ≡ front ++ (id ∷ back)
      → w' ≡ record w { calls = front ++ back }
      → Step k w w'
  removes : (id : String) → w' ≡ on_relay w (remove_consumer w.relay id) → Step k w w'
  sweeps : w' ≡ on_relay w (sweep w.relay) → Step k w w'
  closes : w' ≡ on_relay w (close_relay w.relay) → Step k w w'
  ends :
      w' ≡ record w { relay = clear_consumers w.relay; cleared = w.cleared || w.relay.closing }
      → Step k w w'
  delivers :
      (pkt : Packet) (r : Relay) → deliver w.relay pkt ≡ some r → w' ≡ on_relay w r → Step k w w'
  works :
      (cs : List Consumer)
      → SameIds w.relay.consumers cs
      → w' ≡ on_relay w (record w.relay { consumers = cs })
      → Step k w w'

pub data Reach (k : ℕ) (w : World) : World → Type 0 where
  here : Reach k w w
  next : {u v : World} → Reach k w u → Step k u v → Reach k w v

abbrev pub new_world : ℕ → ℕ → ℕ → World
new_world max window queue = record {
  relay = new_relay max window queue;
  calls = [];
  cleared = false;
}
