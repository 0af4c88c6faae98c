-- ===== src/Relay/Muxing/Closed.antt =====
-- No muxer is left open.
use vrtc_sdk.Prelude.{
  ℕ, ◌≤◌, ◌<◌, ◌≡◌, ◌≢◌, refl, ap, sym, ◌∙◌, arith, ◌⊎◌, inl, inr, Bool, true, false, Option, none,
  some, List, [], ◌∷◌,
}
use vrtc_sdk.Prelude.{if◌then◌else◌}
use vrtc_sdk.Av.{Stream, Packet}
use vrtc_sdk.Relay.Consumer.{Error, muxer_write_packet, muxer_write_codec_change}
use vrtc_sdk.Relay.Muxing.{Answer, fine, rotate, broken, packet, codec_change, trailer}
use vrtc_sdk.Relay.Muxing.{
  World, call, close_mux, open_and_init_muxer, rotate_muxer, change_codec, handle_packet,
  packet_loop, run,
}
use vrtc_sdk.Relay.Muxing.Status.{
  Status, absent, live, ending, ended, next, status, quiet, quiet-Settled, Holds, Settled, Opens,
}
use vrtc_sdk.Relay.Muxing.Status.{
  call-Holds, close_mux-Holds, Holds-Settled, status-other, status-close_mux_other,
  open_and_init_muxer-Opens,
}

-- A muxer in use, or after an error one that can be closed, maybe again.
abbrev GoesOn : (Option Error × ℕ) × World → Type 0
GoesOn ((none, m), w) = Holds w m live
GoesOn ((some e, m), w) = (s : Status) × ((a : Answer) → next s trailer a ≡ ending) × Holds w m s

Settled-Holds : (w : World) (m : ℕ) → Settled w → status w m ≡ ended → Holds w m ended
Settled-Holds w m h e = elim below [
  | inl lt ↦ record { inside = lt; this = e; others = λ n ne. h.all n; above = h.above }
  | inr le ↦ let x : absent ≡ ended = sym (h.above m le) ∙ e in absurd (cc)
]
  where
    below : (m < w.opened) ⊎ (w.opened ≤ m)
    below = omega arith

rotate_muxer-GoesOn :
    (w : World) (headers : List Stream) (m : ℕ) (pkt : Packet)
    → Holds w m live
    → GoesOn (rotate_muxer w headers m pkt)
unfolding rotate_muxer
rotate_muxer-GoesOn w headers m pkt h =
    opened (open_and_init_muxer wc headers)
      (open_and_init_muxer-Opens wc headers (Holds-Settled wc m old))
  where
    wc : World
    wc = close_mux w m

    old : Holds wc m ended
    old = close_mux-Holds w m live (λ a. refl) h

    failing :
        (new : ℕ) (w1 : World)
        → Holds w1 new live
        → status w1 m ≡ ended
        → Holds (close_mux (call w1 new (packet pkt)).1 new) m ended
    failing new w1 b was =
        let w2 = (call w1 new (packet pkt)).1 in
        let shut =
          close_mux-Holds w2 new live (λ a. refl) (call-Holds w1 new (packet pkt) live b) in
        let differs : m ≢ new =
          λ p. let x : live ≡ ended = sym b.this ∙ ap (status w1) (sym p) ∙ was in cc in
        Settled-Holds (close_mux w2 new) m (Holds-Settled _ new shut) (
          status-close_mux_other w2 new m differs
          ∙ status-other w1 new (packet pkt) m differs
          ∙ was)

    by_answer :
        (new : ℕ) (w1 : World)
        → Holds w1 new live
        → status w1 m ≡ ended
        → (a : Answer)
        → GoesOn (elim a as (λ _. (Option Error × ℕ) × World) [
          | fine ↦ ((none, new), (call w1 new (packet pkt)).1)
          | _ ↦ ((some muxer_write_packet, m), close_mux (call w1 new (packet pkt)).1 new)
        ])
    by_answer new w1 b was fine = call-Holds w1 new (packet pkt) live b
    by_answer new w1 b was rotate = (ended, (λ a. refl), failing new w1 b was)
    by_answer new w1 b was broken = (ended, (λ a. refl), failing new w1 b was)

    opened :
        (r : (Option Error × ℕ) × World)
        → Opens wc r
        → GoesOn (elim r.0.0 as (λ _. (Option Error × ℕ) × World) [
          | some x ↦ ((some x, m), r.1)
          | none ↦ elim (call r.1 r.0.1 (packet pkt)).0 as (λ _. (Option Error × ℕ) × World) [
            | fine ↦ ((none, r.0.1), (call r.1 r.0.1 (packet pkt)).1)
            | _ ↦ ((some muxer_write_packet, m), close_mux (call r.1 r.0.1 (packet pkt)).1 r.0.1)
          ]
        ])
    opened ((none, new), w1) (b, kept) =
        by_answer new w1 b (kept m old.inside ∙ old.this) (call w1 new (packet pkt)).0
    opened ((some e, new), w1) (settled, more, kept) =
        (ended, (λ a. refl), Settled-Holds w1 m settled (kept m old.inside ∙ old.this))

change_codec-Holds :
    (w : World) (changer : Bool) (m : ℕ) (pkt : Packet)
    → Holds w m live
    → Holds (change_codec w changer m pkt).1 m live
unfolding change_codec
change_codec-Holds w changer m pkt h = go pkt.new_codecs
  where
    answered :
        (s : List Stream) (a : Answer)
        → Holds
            (elim a as (λ _. Option Error × World) [
              | fine ↦ (none, (call w m (codec_change s)).1)
              | _ ↦ (some muxer_write_codec_change, (call w m (codec_change s)).1)
            ]).1
            m
            live
    answered s fine = call-Holds w m (codec_change s) live h
    answered s rotate = call-Holds w m (codec_change s) live h
    answered s broken = call-Holds w m (codec_change s) live h

    by_changer :
        (s : List Stream) (c : Bool)
        → Holds
            (if c
              then (elim (call w m (codec_change s)).0 as (λ _. Option Error × World) [
                | fine ↦ (none, (call w m (codec_change s)).1)
                | _ ↦ (some muxer_write_codec_change, (call w m (codec_change s)).1)
              ])
              else (none, w)).1
            m
            live
    by_changer s true = answered s (call w m (codec_change s)).0
    by_changer s false = h

    go :
        (o : Option (List Stream))
        → Holds
            (elim o as (λ _. Option Error × World) [
              | none ↦ (none, w)
              | some s ↦
                  if changer
                  then (elim (call w m (codec_change s)).0 as (λ _. Option Error × World) [
                    | fine ↦ (none, (call w m (codec_change s)).1)
                    | _ ↦ (some muxer_write_codec_change, (call w m (codec_change s)).1)
                  ])
                  else (none, w)
            ]).1
            m
            live
    go none = h
    go (some s) = by_changer s changer

handle_packet-GoesOn :
    (w : World) (changer : Bool) (headers : List Stream) (m : ℕ) (pkt : Packet)
    → Holds w m live
    → GoesOn (handle_packet w changer headers m pkt)
unfolding handle_packet
handle_packet-GoesOn w changer headers m pkt h =
    changed (change_codec w changer m pkt) (change_codec-Holds w changer m pkt h)
  where
    answered :
        (w1 : World)
        → Holds w1 m live
        → (a : Answer)
        → GoesOn (elim a as (λ _. (Option Error × ℕ) × World) [
          | fine ↦ ((none, m), (call w1 m (packet pkt)).1)
          | rotate ↦ rotate_muxer (call w1 m (packet pkt)).1 headers m pkt
          | broken ↦ ((some muxer_write_packet, m), (call w1 m (packet pkt)).1)
        ])
    answered w1 k fine = call-Holds w1 m (packet pkt) live k
    answered w1 k rotate =
        rotate_muxer-GoesOn (call w1 m (packet pkt)).1 headers m pkt
          (call-Holds w1 m (packet pkt) live k)
    answered w1 k broken = (live, (λ a. refl), call-Holds w1 m (packet pkt) live k)

    changed :
        (r : Option Error × World)
        → Holds r.1 m live
        → GoesOn (elim r.0 as (λ _. (Option Error × ℕ) × World) [
          | some x ↦ ((some x, m), r.1)
          | none ↦ elim (call r.1 m (packet pkt)).0 as (λ _. (Option Error × ℕ) × World) [
            | fine ↦ ((none, m), (call r.1 m (packet pkt)).1)
            | rotate ↦ rotate_muxer (call r.1 m (packet pkt)).1 headers m pkt
            | broken ↦ ((some muxer_write_packet, m), (call r.1 m (packet pkt)).1)
          ]
        ])
    changed (some x, w1) k = (live, (λ a. refl), k)
    changed (none, w1) k = answered w1 k (call w1 m (packet pkt)).0

packet_loop-GoesOn :
    (w : World) (changer : Bool) (headers : List Stream) (m : ℕ) (ps : List Packet)
    → Holds w m live
    → GoesOn (packet_loop w changer headers m ps)
unfolding packet_loop
packet_loop-GoesOn w changer headers m [] h = h
packet_loop-GoesOn w changer headers m (p ∷ ps) h =
    go (handle_packet w changer headers m p) (handle_packet-GoesOn w changer headers m p h)
      (λ w' m' k. packet_loop-GoesOn w' changer headers m' ps k)
  where
    go :
        (r : (Option Error × ℕ) × World)
        → GoesOn r
        → ((w' : World) (m' : ℕ) → Holds w' m' live → GoesOn (packet_loop w' changer headers m' ps))
        → GoesOn (elim r.0.0 as (λ _. (Option Error × ℕ) × World) [
          | some x ↦ ((some x, r.0.1), r.1)
          | none ↦ packet_loop r.1 changer headers r.0.1 ps
        ])
    go ((none, m'), w') k rest = rest w' m' k
    go ((some x, m'), w') k rest = k

close_after : (r : (Option Error × ℕ) × World) → GoesOn r → Settled (close_mux r.1 r.0.1)
close_after ((none, m), w) h =
    Holds-Settled (close_mux w m) m (close_mux-Holds w m live (λ a. refl) h)
close_after ((some e, m), w) (s, ends, h) =
    Holds-Settled (close_mux w m) m (close_mux-Holds w m s ends h)

run-Settled :
    (w : World) (changer : Bool) (headers : List Stream) (ps : List Packet)
    → Settled w
    → Settled (run w changer headers ps).1
unfolding run
run-Settled w changer headers ps h =
    go (open_and_init_muxer w headers) (open_and_init_muxer-Opens w headers h)
  where
    go :
        (r : (Option Error × ℕ) × World)
        → Opens w r
        → Settled
            (elim r.0.0 as (λ _. Option Error × World) [
              | some x ↦ (some x, r.1)
              | none ↦ (
                (packet_loop r.1 changer headers r.0.1 ps).0.0,
                close_mux
                    (packet_loop r.1 changer headers r.0.1 ps).1
                    (packet_loop r.1 changer headers r.0.1 ps).0.1,
              )
            ]).1
    go ((none, m), w1) (k, kept) =
        close_after (packet_loop w1 changer headers m ps)
          (packet_loop-GoesOn w1 changer headers m ps k)
    go ((some e, m), w1) k = k.0

-- Whatever the factory and the muxers answer and whichever packets come, when the goroutine of a
-- consumer is over, each muxer that was opened has had its calls in order (its header first and once,
-- packets and codec changes only after a header that succeeded, then its trailer and its close, maybe
-- twice) and has been closed; one whose factory call failed has had no call.
pub run-closes :
    (answers : List Answer) (changer : Bool) (headers : List Stream) (ps : List Packet) (n : ℕ)
    → let w = (run (quiet answers) changer headers ps).1 in
      (status w n ≡ ended) ⊎ (status w n ≡ absent)
run-closes answers changer headers ps n =
    (run-Settled (quiet answers) changer headers ps (quiet-Settled answers)).all n
