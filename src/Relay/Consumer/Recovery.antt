-- ===== src/Relay/Consumer/Recovery.antt =====
-- What a consumer on the leaky path gets after a packet was dropped.
use vrtc_sdk.Prelude.{
  ◌<◌, ◌≡◌, refl, sym, ◌∙◌, arith, ◌⊎◌, inl, inr, Bool, true, false, some, List, [], ◌∷◌, ◌++◌,
}
use vrtc_sdk.Prelude.{◌==◌, if◌then◌else◌, length, length-append}
use mathlib.Core.Path.{subst}
use vrtc_sdk.Prelude.Int.{ltb_ℤ}
use vrtc_sdk.Av.{Packet}
use vrtc_sdk.Relay.Consumer.{Consumer, offer_leaky, offer_blocking, write_packet, take_packet}

-- What happens to an offered packet: it is enqueued, it is held back, or it is lost to a full queue.
pub data Fate : Type 0 where
  delivered withheld dropped : Fate

pub data Event : Type 0 where
  offered : Packet → Event
  taken : Event

unfoldable pub fate : Consumer → Packet → Fate
unfolding offer_leaky
fate c pkt =
    let (n, c') = offer_leaky c pkt in
    if n == 1
    then dropped
    else if length c'.packets == length c.packets
    then withheld
    else delivered

-- The fates of the packets that are offered, while the consumer's goroutine takes packets in between.
unfoldable pub fates : Consumer → List Event → List (Packet × Fate)
fates c [] = []
fates c (offered p ∷ es) = (p, fate c p) ∷ fates (offer_leaky c p).1 es
fates c (taken ∷ es) = fates (take_packet c).1 es

-- `lost` is whether a packet was dropped with no keyframe enqueued since.
abbrev pub Resyncs : Bool → List (Packet × Fate) → Type 0
Resyncs lost [] = Unit
Resyncs lost ((p, dropped) ∷ r) = Resyncs true r
Resyncs lost ((p, withheld) ∷ r) = (lost ≡ true) × (p.key_frame ≡ false) × Resyncs lost r
Resyncs false ((p, delivered) ∷ r) = Resyncs false r
Resyncs true ((p, delivered) ∷ r) = (p.key_frame ≡ true) × Resyncs false r

abbrev Offered : Consumer → Packet → Fate → Consumer → Type 0
Offered c p dropped c' = c'.needs_keyframe ≡ true
Offered c p withheld c' =
    (c.needs_keyframe ≡ true) × (p.key_frame ≡ false) × (c'.needs_keyframe ≡ true)
Offered c p delivered c' =
    ((c.needs_keyframe ≡ false) ⊎ (p.key_frame ≡ true)) × (c'.needs_keyframe ≡ false)

offer_leaky-Offered :
    (c : Consumer) (p : Packet)
    → c.skip_before_set ≡ false
    → Offered c p (fate c p) (offer_leaky c p).1 × ((offer_leaky c p).1.skip_before_set ≡ false)
unfolding fate offer_leaky
offer_leaky-Offered c p h = ground (arith, length-append c.packets (p ∷ []))

take_packet_keeps :
    (c : Consumer)
    → ((take_packet c).1.needs_keyframe ≡ c.needs_keyframe)
      × ((take_packet c).1.skip_before_set ≡ c.skip_before_set)
unfolding take_packet
take_packet_keeps c = ground arith

fates_step :
    (lost : Bool) (c : Consumer) (p : Packet) (f : Fate) (c' : Consumer) (r : List (Packet × Fate))
    → c.needs_keyframe ≡ lost
    → Offered c p f c'
    → Resyncs c'.needs_keyframe r
    → Resyncs lost ((p, f) ∷ r)
fates_step lost c p dropped c' r e o k = rw o at k
fates_step lost c p withheld c' r e (was, plain, still) k =
    (sym e ∙ was, plain, subst (λ b. Resyncs b r) (still ∙ sym was ∙ e) k)
fates_step true c p delivered c' r e (why, now) k = elim why [
  | inl not_lost ↦ absurd (cc)
  | inr key ↦ (key, subst (λ b. Resyncs b r) now k)
]
fates_step false c p delivered c' r e (why, now) k = subst (λ b. Resyncs b r) now k

-- On the leaky path, once the overlap with the injected packets is over, a consumer that lost a packet
-- to a full queue gets none, audio included, until the next keyframe, which is the first packet that it
-- gets again; packets are held back only then, and only if they are no keyframes. So it is for all
-- packets offered, with the consumer taking packets at any time in between.
pub fates-Resyncs :
    (c : Consumer) (es : List Event)
    → c.skip_before_set ≡ false
    → Resyncs c.needs_keyframe (fates c es)
unfolding fates
fates-Resyncs c [] h = tt
fates-Resyncs c (offered p ∷ es) h =
    let (step, off) = offer_leaky-Offered c p h in
    fates_step c.needs_keyframe c p (fate c p) (offer_leaky c p).1 _ refl step
      (fates-Resyncs (offer_leaky c p).1 es off)
fates-Resyncs c (taken ∷ es) h =
    let (same, off) = take_packet_keeps c in
    subst (λ b. Resyncs b (fates (take_packet c).1 es)) same
      (fates-Resyncs (take_packet c).1 es (off ∙ h))

pub offer_leaky_id : (c : Consumer) (p : Packet) → c.id ≡ (offer_leaky c p).1.id
unfolding offer_leaky
offer_leaky_id c p = ground arith

pub offer_blocking_id :
    (c : Consumer) (p : Packet) (c' : Consumer) → offer_blocking c p ≡ some c' → c.id ≡ c'.id
unfolding offer_blocking
offer_blocking_id c p c' e = ground arith

pub write_packet-room :
    (c : Consumer) (p : Packet)
    → length c.packets < c.queue_size
    → write_packet c p ≡ some (record c { packets = c.packets ++ (p ∷ []) })
unfolding write_packet
write_packet-room c p room = ground arith

-- A live packet that is not before the end of the overlap with the injected packets.
abbrev pub Follows : Consumer → Packet → Type 0
Follows c p = (c.skip_before_set ≡ false) ⊎ (ltb_ℤ p.dts c.skip_before ≡ false)

pub offer_blocking-skipped :
    (c : Consumer) (q : Packet)
    → c.skip_before_set ≡ true
    → ltb_ℤ q.dts c.skip_before ≡ true
    → offer_blocking c q ≡ some c
unfolding offer_blocking
offer_blocking-skipped c q set before = ground arith

pub offer_blocking-room :
    (c : Consumer) (p : Packet)
    → length c.packets < c.queue_size
    → Follows c p
    → offer_blocking c p
      ≡ some (record c { packets = c.packets ++ (p ∷ []); skip_before_set = false })
unfolding offer_blocking
offer_blocking-room c p room f = ground arith
