-- ===== src/Relay/Registry/Overlap.antt =====
-- Two calls of `AddConsumer` that overlap.
use vrtc_sdk.Prelude.{suc, ◌≡◌, arith, false, none, [], ◌∷◌, ◌++◌, length, length-append}
use vrtc_sdk.Relay.Consumer.{Consumer}
use vrtc_sdk.Relay.Registry.{Relay, has_consumer, check_add, enlist}
use vrtc_sdk.Relay.Registry.Ids.{has_consumer-append}
use text.Mathlib.Text.{◌==◌ as str_eq}
use Prim.Native.String.{String}

check_add-new :
    (r : Relay) (id : String)
    → check_add r id ≡ none
    → (r.closing ≡ false) × (has_consumer id r.consumers ≡ false)
unfolding check_add
check_add-new r id h = ground arith

-- On a relay with one place left below its limit, when two different ids both pass the guards of
-- `AddConsumer` before either consumer is visible, the last sections of the two calls both make their
-- consumer visible, one after the other, and the relay then has one consumer more than its limit.
pub overlap-enlist :
    (r : Relay) (c d : Consumer)
    → check_add r c.id ≡ none
    → check_add r d.id ≡ none
    → str_eq c.id d.id ≡ false
    → suc (length r.consumers) ≡ r.max_consumers
    → let r2 = (enlist (enlist r c).1 d).1 in
      ((enlist r c).0 ≡ none)
      × ((enlist (enlist r c).1 d).0 ≡ none)
      × (length r2.consumers ≡ suc r2.max_consumers)
unfolding enlist has_consumer
overlap-enlist r c d hc hd ne one_left = ground (
  arith,
  check_add-new r c.id hc,
  check_add-new r d.id hd,
  has_consumer-append d.id r.consumers (c ∷ []),
  length-append r.consumers (c ∷ []),
  length-append (r.consumers ++ (c ∷ [])) (d ∷ []),
)
