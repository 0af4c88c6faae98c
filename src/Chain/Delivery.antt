-- ===== src/Chain/Delivery.antt =====
-- The payloads that a chain hands out.
use vrtc_sdk.Prelude.{ℕ, zero, suc, ◌≡◌, refl, ap, inl, inr}
use vrtc_sdk.Prelude.{Option, none, some, List, [], ◌∷◌, map, take}
use vrtc_sdk.Prelude.Int.{ℤ}
use vrtc_sdk.Av.{Stream, Packet}
use vrtc_sdk.Chain.{
  Error, Chain, Segment, Next, segment, failed, Read, got, fail, ok, err, Result, read_loop,
  read_packet, emit,
}
use vrtc_sdk.Chain.Monotone.{drain, Result-cases, entered, read_loop_next}

-- The payloads of the segments' packets up to the first error: of a read, of the source, or of the
-- codecs of a new segment.
pub payloads : List Read → List Next → List (List ℕ)
payloads (got p ∷ r) more = p.payload ∷ payloads r more
payloads (fail e ∷ r) more = []
payloads [] [] = []
payloads [] (failed e ∷ more) = []
payloads [] (segment d gap ∷ more) =
    let rest = payloads d.reads more in elim d.codecs [ ok streams ↦ rest | err e ↦ [] ]

-- What is still to come from the current segment and the source.
abbrev pub remaining : Option Segment → List Next → List (List ℕ)
remaining none more = []
remaining (some d) more = payloads d.reads more

abbrev Delivers : List (List ℕ) → Result Packet × Chain → Type 0
Delivers ps (err e, c) = ps ≡ []
Delivers ps (ok p, c) = ps ≡ p.payload ∷ remaining c.cur c.source

Delivers-err :
    (ps : List (List ℕ)) (r : Result Packet × Chain) (e : Error)
    → r.0 ≡ err e
    → ps ≡ []
    → Delivers ps r
Delivers-err ps (ok p, c) e h k = absurd (cc)
Delivers-err ps (err e', c) e h k = k

payloads_next :
    (d : Segment) (gap : Option ℤ) (more : List Next) (streams : List Stream)
    → d.codecs ≡ ok streams
    → payloads [] (segment d gap ∷ more) ≡ payloads d.reads more
unfolding payloads
payloads_next d gap more streams e = rw (e, payloads)

read_loop-Delivers :
    (c : Chain) (more : List Next) (d : Segment) (reads : List Read)
    → Delivers (payloads reads more) (read_loop c more d reads)
read_loop-Delivers c more d (got raw ∷ rest) = unfold read_loop emit payloads in refl
read_loop-Delivers c more d (fail e ∷ rest) = unfold read_loop payloads in refl
read_loop-Delivers c [] d [] = unfold read_loop payloads in refl
read_loop-Delivers c (failed e ∷ more) d [] = unfold read_loop payloads in refl
read_loop-Delivers c (segment next gap ∷ more) d [] = elim (Result-cases next.codecs) [
  | inl (e, is_err) ↦
      Delivers-err _ (read_loop c (segment next gap ∷ more) d []) e
        (unfold read_loop in rw (is_err, read_loop)) (unfold payloads in rw (is_err, payloads))
  | inr (streams, is_ok) ↦
      rw (read_loop_next c next gap more d streams is_ok, payloads_next next gap more streams is_ok)
        (read_loop-Delivers (entered c gap streams) more next next.reads)
]

read_packet-Delivers : (c : Chain) → Delivers (remaining c.cur c.source) (read_packet c)
unfolding read_packet
read_packet-Delivers c = by_cur c.cur refl
  where
    by_cur :
        (cur : Option Segment) → c.cur ≡ cur → Delivers (remaining cur c.source) (read_packet c)
    by_cur none e = rw (e, read_packet) refl
    by_cur (some d) e = rw (e, read_packet) (read_loop-Delivers c c.source d d.reads)

take-nil : (n : ℕ) → take {A = List ℕ} n [] ≡ []
take-nil zero = refl
take-nil (suc n) = refl

-- The first `n` packets that a chain hands out before an error carry exactly the first `n` payloads of
-- what its current segment and its source still hold up to the first error, in order.
pub drain_payloads :
    (n : ℕ) (c : Chain) → map (λ p. p.payload) (drain n c) ≡ take n (remaining c.cur c.source)
unfolding drain
drain_payloads zero c = refl
drain_payloads (suc n) c = go (read_packet c) (read_packet-Delivers c) (λ c'. drain_payloads n c')
  where
    go :
        (r : Result Packet × Chain)
        → Delivers (remaining c.cur c.source) r
        → ((c' : Chain) → map (λ p. p.payload) (drain n c') ≡ take n (remaining c'.cur c'.source))
        → map (λ p. p.payload) (elim r.0 [ ok p ↦ p ∷ drain n r.1 | err e ↦ [] ])
          ≡ take (suc n) (remaining c.cur c.source)
    go (err e, c') h rest = rw h
    go (ok p, c') h rest = rw h (ap (λ l. p.payload ∷ l) (rest c'))
