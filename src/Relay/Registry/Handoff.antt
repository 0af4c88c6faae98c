-- ===== src/Relay/Registry/Handoff.antt =====
-- From the injected packets of a new consumer to the live ones.
use vrtc_sdk.Prelude.{
  ◌+◌, ◌≤◌, ◌≡◌, refl, ap, sym, ◌∙◌, arith, inl, inr, true, false, Option, some, ◌>>=◌, List, [],
  ◌∷◌, ◌++◌, append-nil, append_assoc,
}
use vrtc_sdk.Prelude.{length, length-append, All, Bool-cases, if◌then◌else◌}
use vrtc_sdk.Prelude.Int.{ℤ, ltb_ℤ}
use vrtc_sdk.Av.{Packet}
use vrtc_sdk.PacketBuf.{Buffer, last_gop}
use vrtc_sdk.Relay.Consumer.{Consumer, offer_blocking, set_skip_before}
use vrtc_sdk.Relay.Consumer.Recovery.{
  write_packet-room, offer_blocking-room, offer_blocking-skipped, Follows,
}
use vrtc_sdk.Relay.Registry.{inject, last_of, replay}

-- The live packets that a single consumer is handed one after the other.
unfoldable pub offers : Consumer → List Packet → Option Consumer
offers c [] = some c
offers c (q ∷ qs) = offer_blocking c q >>= λ c'. offers c' qs

inject-room :
    (c : Consumer) (ps : List Packet)
    → length c.packets + length ps ≤ c.queue_size
    → inject c ps ≡ some (record c { packets = c.packets ++ ps })
unfolding inject
inject-room c [] room = ap (λ l. some (record c { packets = l })) (sym (append-nil c.packets))
inject-room c (p ∷ ps) room = rw (write_packet-room c p (omega arith)) (
    inject-room (record c { packets = c.packets ++ (p ∷ []) }) ps
      (omega (arith, length-append c.packets (p ∷ [])))
    ∙ ap (λ l. some (record c { packets = l })) (append_assoc c.packets (p ∷ []) ps))

All-follow : (c : Consumer) → c.skip_before_set ≡ false → (qs : List Packet) → All (Follows c) qs
All-follow c off [] = tt
All-follow c off (q ∷ qs) = (inl off, All-follow c off qs)

offers-room :
    (c : Consumer) (qs : List Packet)
    → length c.packets + length qs ≤ c.queue_size
    → All (Follows c) qs
    → (c' : Consumer) × (offers c qs ≡ some c') × (c'.packets ≡ c.packets ++ qs)
unfolding offers
offers-room c [] room all = (c, refl, sym (append-nil c.packets))
offers-room c (q ∷ qs) room all =
    let c1 : Consumer = record c { packets = c.packets ++ (q ∷ []); skip_before_set = false } in
    let (c', e, queue) =
      offers-room c1 qs (omega (arith, length-append c.packets (q ∷ []))) (All-follow c1 refl qs) in
    (
      c',
      rw (offer_blocking-room c q (omega arith) all.0) e,
      queue ∙ append_assoc c.packets (q ∷ []) qs,
    )

-- The packets from the first one on that is not before a time.
abbrev pub from_time : ℤ → List Packet → List Packet
from_time t [] = []
from_time t (q ∷ qs) = let rest = from_time t qs in if ltb_ℤ q.dts t then rest else q ∷ qs

offers-from_time :
    (c : Consumer) (qs : List Packet)
    → c.skip_before_set ≡ true
    → length c.packets + length qs ≤ c.queue_size
    → (c' : Consumer) × (offers c qs ≡ some c')
      × (c'.packets ≡ c.packets ++ from_time c.skip_before qs)
unfolding offers
offers-from_time c [] set room = (c, refl, sym (append-nil c.packets))
offers-from_time c (q ∷ qs) set room = elim (Bool-cases (ltb_ℤ q.dts c.skip_before)) [
  | inl before ↦
      rw (offer_blocking-skipped c q set before, before) (offers-from_time c qs set (omega arith))
  | inr over ↦
      let c1 : Consumer = record c { packets = c.packets ++ (q ∷ []); skip_before_set = false } in
      let (c', e, queue) =
        offers-room c1 qs (omega (arith, length-append c.packets (q ∷ [])))
          (All-follow c1 refl qs) in
      rw (offer_blocking-room c q (omega arith) (inr over), over)
        (c', e, queue ∙ append_assoc c.packets (q ∷ []) qs)
]

replay-group :
    (b : Buffer) (c : Consumer) (p : Packet) (ps : List Packet)
    → last_gop b ≡ some (p ∷ ps)
    → replay b c ≡ (inject c (p ∷ ps) >>= λ c'. some (set_skip_before c' (last_of p ps).dts))
unfolding replay inject
replay-group b c p ps gop = rw (gop, replay) refl

-- A new consumer with room in its queue, as the only active one, is handed any live packets with
-- back-pressure: it gets the last group of pictures of the buffer, and then the live packets in order,
-- less those at their start whose DTS is strictly below that of the end of the group. A packet that is
-- the end of the group itself is not left out: when it was stored as the consumer was attached, and is
-- delivered after it became visible, it is enqueued twice.
pub replay-offers :
    (b : Buffer) (c : Consumer) (p : Packet) (ps qs : List Packet)
    → last_gop b ≡ some (p ∷ ps)
    → length c.packets + (length (p ∷ ps) + length qs) ≤ c.queue_size
    → (c' : Consumer) × ((replay b c >>= λ c1. offers c1 qs) ≡ some c')
      × (c'.packets ≡ c.packets ++ ((p ∷ ps) ++ from_time (last_of p ps).dts qs))
unfolding set_skip_before
replay-offers b c p ps qs gop room =
    let c1 : Consumer = record c { packets = c.packets ++ (p ∷ ps) } in
    let t = (last_of p ps).dts in
    let (c', e, queue) =
      offers-from_time (set_skip_before c1 t) qs refl
        (omega (arith, length-append c.packets (p ∷ ps))) in
    (
      c',
      ap (λ o. o >>= λ c1. offers c1 qs)
            (replay-group b c p ps gop
              ∙ ap (λ o. o >>= λ c'. some (set_skip_before c' t))
                  (inject-room c (p ∷ ps) (omega arith)))
          ∙ e,
      queue ∙ append_assoc c.packets (p ∷ ps) (from_time t qs),
    )
