-- ===== src/Relay/Registry/Ids.antt =====
-- The ids of a relay's consumers under its operations.
use vrtc_sdk.Prelude.{
  suc, ◌+◌, ◌%◌, ◌^◌, ◌≤◌, ◌≡◌, refl, ap, sym, ◌∙◌, arith, inl, inr, false, ◌||◌, some, List, [],
  ◌∷◌, ◌++◌,
}
use vrtc_sdk.Prelude.{length, ◌==◌, Bool-cases, ◌>>=◌, >>=-eq-some}
use mathlib.Core.Path.{subst}
use vrtc_sdk.Av.{Packet}
use vrtc_sdk.Relay.Consumer.{Consumer, offer_blocking}
use vrtc_sdk.Relay.Registry.{
  Relay, has_consumer, delete, actives, deliver, deliver_leaky, deliver_blocking, count_active,
  is_active,
}
use vrtc_sdk.Relay.Consumer.Recovery.{offer_leaky_id, offer_blocking_id}
use text.Mathlib.Text.{◌==◌ as str_eq}
use text.Mathlib.TextEquality.{eq_iff}
use Prim.Native.String.{String}

-- No two consumers have the same id.
abbrev pub Distinct : List Consumer → Type 0
Distinct [] = Unit
Distinct (c ∷ cs) = (has_consumer c.id cs ≡ false) × Distinct cs

str_eq_sym : (a b : String) → str_eq a b ≡ str_eq b a
str_eq_sym a b = ground (arith, eq_iff a b, eq_iff b a)

pub has_consumer-append :
    (id : String) (cs ds : List Consumer)
    → has_consumer id (cs ++ ds) ≡ (has_consumer id cs || has_consumer id ds)
unfolding has_consumer
has_consumer-append id [] ds = refl
has_consumer-append id (c ∷ cs) ds = ground (arith, has_consumer-append id cs ds)

pub append-Distinct :
    (cs : List Consumer) (c : Consumer)
    → Distinct cs
    → has_consumer c.id cs ≡ false
    → Distinct (cs ++ (c ∷ []))
unfolding has_consumer
append-Distinct [] c d h = (refl, tt)
append-Distinct (e ∷ cs) c d h = (
  ground (arith, has_consumer-append e.id cs (c ∷ []), str_eq_sym c.id e.id),
  append-Distinct cs c d.1 (ground arith),
)

has_consumer-delete :
    (id j : String) (cs : List Consumer)
    → has_consumer id cs ≡ false
    → has_consumer id (delete j cs) ≡ false
unfolding has_consumer delete
has_consumer-delete id j [] h = refl
has_consumer-delete id j (c ∷ cs) h = ground (arith, has_consumer-delete id j cs)

pub delete-Distinct : (j : String) (cs : List Consumer) → Distinct cs → Distinct (delete j cs)
unfolding delete
delete-Distinct j [] d = tt
delete-Distinct j (c ∷ cs) d = elim (Bool-cases (str_eq c.id j)) [
  | inl e ↦ rw e (delete-Distinct j cs d.1)
  | inr e ↦ rw e (has_consumer-delete c.id j cs d.0, delete-Distinct j cs d.1)
]

pub length-delete : (j : String) (cs : List Consumer) → length (delete j cs) ≤ length cs
unfolding delete
length-delete j [] = omega arith
length-delete j (c ∷ cs) = ground (arith, length-delete j cs)

has_consumer-actives :
    (id : String) (cs : List Consumer)
    → has_consumer id cs ≡ false
    → has_consumer id (actives cs) ≡ false
unfolding has_consumer actives
has_consumer-actives id [] h = refl
has_consumer-actives id (c ∷ cs) h = ground (arith, has_consumer-actives id cs)

pub actives-Distinct : (cs : List Consumer) → Distinct cs → Distinct (actives cs)
unfolding actives
actives-Distinct [] d = tt
actives-Distinct (c ∷ cs) d = elim (Bool-cases c.inactive) [
  | inl e ↦ rw e (actives-Distinct cs d.1)
  | inr e ↦ rw e (has_consumer-actives c.id cs d.0, actives-Distinct cs d.1)
]

pub length-actives : (cs : List Consumer) → length (actives cs) ≤ length cs
unfolding actives
length-actives [] = omega arith
length-actives (c ∷ cs) = ground (arith, length-actives cs)

-- The same ids, in the same order.
abbrev pub SameIds : List Consumer → List Consumer → Type 0
SameIds [] [] = Unit
SameIds (c ∷ cs) (d ∷ ds) = (c.id ≡ d.id) × SameIds cs ds
SameIds [] (d ∷ ds) = ⊥
SameIds (c ∷ cs) [] = ⊥

has_consumer-SameIds :
    (id : String) (cs ds : List Consumer) → SameIds cs ds → has_consumer id cs ≡ has_consumer id ds
unfolding has_consumer
has_consumer-SameIds id [] [] s = refl
has_consumer-SameIds id [] (d ∷ ds) s = absurd s
has_consumer-SameIds id (c ∷ cs) [] s = absurd s
has_consumer-SameIds id (c ∷ cs) (d ∷ ds) (e, s) = rw (e, has_consumer-SameIds id cs ds s) refl

pub SameIds-Distinct : (cs ds : List Consumer) → SameIds cs ds → Distinct cs → Distinct ds
SameIds-Distinct [] [] s d = tt
SameIds-Distinct [] (d ∷ ds) s h = absurd s
SameIds-Distinct (c ∷ cs) [] s h = absurd s
SameIds-Distinct (c ∷ cs) (d ∷ ds) (e, s) h = (
  ap (λ i. has_consumer i ds) (sym e) ∙ sym (has_consumer-SameIds c.id cs ds s) ∙ h.0,
  SameIds-Distinct cs ds s h.1,
)

pub length-SameIds : (cs ds : List Consumer) → SameIds cs ds → length cs ≡ length ds
length-SameIds [] [] s = refl
length-SameIds [] (d ∷ ds) s = absurd s
length-SameIds (c ∷ cs) [] s = absurd s
length-SameIds (c ∷ cs) (d ∷ ds) (e, s) = ap suc (length-SameIds cs ds s)

pub SameIds-refl : (cs : List Consumer) → SameIds cs cs
SameIds-refl [] = tt
SameIds-refl (c ∷ cs) = (refl, SameIds-refl cs)

deliver_leaky-SameIds : (cs : List Consumer) (pkt : Packet) → SameIds cs (deliver_leaky cs pkt).1
unfolding deliver_leaky
deliver_leaky-SameIds [] pkt = tt
deliver_leaky-SameIds (c ∷ cs) pkt = elim (Bool-cases (is_active c)) [
  | inl e ↦ rw e (offer_leaky_id c pkt, deliver_leaky-SameIds cs pkt)
  | inr e ↦ rw e (refl, deliver_leaky-SameIds cs pkt)
]

deliver_blocking-SameIds :
    (cs : List Consumer) (pkt : Packet) (cs' : List Consumer)
    → deliver_blocking cs pkt ≡ some cs'
    → SameIds cs cs'
unfolding deliver_blocking
deliver_blocking-SameIds [] pkt cs' e = ground arith
deliver_blocking-SameIds (c ∷ cs) pkt cs' e = elim (Bool-cases (is_active c)) [
  | inl on ↦
      let h : (offer_blocking c pkt >>= λ c'. some (c' ∷ cs)) ≡ some cs' = rw on at e in
      let (c', o, same) = >>=-eq-some (offer_blocking c pkt) (λ c'. some (c' ∷ cs)) h in
      let eq : (c' ∷ cs) ≡ cs' = cc in
      subst (SameIds (c ∷ cs)) eq (offer_blocking_id c pkt c' o, SameIds-refl cs)
  | inr off ↦
      let h : (deliver_blocking cs pkt >>= λ ds. some (c ∷ ds)) ≡ some cs' = rw off at e in
      let (ds, o, same) = >>=-eq-some (deliver_blocking cs pkt) (λ ds. some (c ∷ ds)) h in
      let eq : (c ∷ ds) ≡ cs' = cc in
      subst (SameIds (c ∷ cs)) eq (refl, deliver_blocking-SameIds cs pkt ds o)
]

-- A delivery changes consumers in place, and nothing else that membership depends on.
pub deliver-SameIds :
    (r : Relay) (pkt : Packet) (r' : Relay)
    → deliver r pkt ≡ some r'
    → SameIds r.consumers r'.consumers
      × (r'.max_consumers ≡ r.max_consumers)
      × (r'.closing ≡ r.closing)
unfolding deliver
deliver-SameIds r pkt r' e = elim (Bool-cases (count_active r.consumers == 1)) [
  | inl one ↦
      let f = λ (cs : List Consumer). some (record r { consumers = cs }) in
      let h : (deliver_blocking r.consumers pkt >>= f) ≡ some r' = rw one at e in
      let (cs, o, same) = >>=-eq-some (deliver_blocking r.consumers pkt) f h in
      let eq : record r { consumers = cs } ≡ r' = cc in
      (
        subst (λ q. SameIds r.consumers q.consumers) eq
            (deliver_blocking-SameIds r.consumers pkt cs o),
        ap (λ q. q.max_consumers) (sym eq),
        ap (λ q. q.closing) (sym eq),
      )
  | inr more ↦
      let after : Relay = record r {
        consumers = (deliver_leaky r.consumers pkt).1;
        dropped_packets = (r.dropped_packets + (deliver_leaky r.consumers pkt).0) % 2 ^ 64;
      } in
      let h : some after ≡ some r' = rw more at e in
      let eq : after ≡ r' = cc in
      (
        subst (λ q. SameIds r.consumers q.consumers) eq (deliver_leaky-SameIds r.consumers pkt),
        ap (λ q. q.max_consumers) (sym eq),
        ap (λ q. q.closing) (sym eq),
      )
]
