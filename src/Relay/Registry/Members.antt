-- ===== src/Relay/Registry/Members.antt =====
-- Which consumers a relay has, while several calls run.
use vrtc_sdk.Prelude.{
  ℕ, suc, ◌+◌, ◌≤◌, ◌<◌, ◌≡◌, refl, ap, sym, ◌∙◌, arith, ◌⊎◌, inl, inr, Bool, true, false, ◌||◌,
  none, List, [], ◌∷◌, ◌++◌, Bool-cases,
}
use vrtc_sdk.Prelude.{length, length-append}
use mathlib.Core.Path.{subst}
use vrtc_sdk.Relay.Consumer.{Consumer}
use vrtc_sdk.Relay.Registry.{
  Relay, new_relay, start_relay, set_headers, set_last_codec_error, has_consumer, check_add, enlist,
  delete, remove_consumer, actives, sweep, close_relay, clear_consumers, close_buffer, store_packet,
}
use vrtc_sdk.Relay.Registry.Ids.{
  Distinct, SameIds, append-Distinct, delete-Distinct, length-delete, actives-Distinct,
  length-actives, SameIds-refl, SameIds-Distinct, length-SameIds, deliver-SameIds,
}
use Prim.Native.String.{String}
use vrtc_sdk.Relay.Registry.World.{
  World, on_relay, Keeps, starts, headers_come, fails, stores, closes_buffer, Step, keeps, begins,
  finishes, gives_up, removes, sweeps, closes, ends, delivers, works, Reach, here, next, new_world,
}

abbrev IsEmptied : Bool → Relay → Type 0
IsEmptied cleared r = cleared ≡ true → (r.closing ≡ true) × (r.consumers ≡ [])

pub record IsValid (k max : ℕ) (w : World) : Type 0 where
  pub limit : w.relay.max_consumers ≡ max
  pub distinct : Distinct w.relay.consumers
  pub few : 0 < max → suc (length w.relay.consumers + length w.calls) ≤ max + k
  pub emptied : IsEmptied w.cleared w.relay

length-middle :
    (front back : List String) (id : String)
    → length (front ++ (id ∷ back)) ≡ suc (length (front ++ back))
length-middle [] back id = refl
length-middle (x ∷ front) back id = ap suc (length-middle front back id)

check_add-open :
    (r : Relay) (id : String)
    → check_add r id ≡ none
    → (r.closing ≡ false) × (0 < r.max_consumers → length r.consumers < r.max_consumers)
unfolding check_add
check_add-open r id h = ground arith

enlist_cases :
    (r : Relay) (c : Consumer)
    → ((enlist r c).1 ≡ r)
      ⊎ ((r.closing ≡ false)
          × (has_consumer c.id r.consumers ≡ false)
          × ((enlist r c).1 ≡ record r { consumers = r.consumers ++ (c ∷ []) }))
unfolding enlist
enlist_cases r c = ground arith

enlist-IsValid :
    (k max : ℕ) (w : World) (front back : List String) (c : Consumer)
    → w.calls ≡ front ++ (c.id ∷ back)
    → IsValid k max w
    → IsValid k max (record w { relay = (enlist w.relay c).1; calls = front ++ back })
enlist-IsValid k max w front back c was v =
    let lesser : length w.calls ≡ suc (length (front ++ back)) =
      ap length was ∙ length-middle front back c.id in
    elim (enlist_cases w.relay c) [
      | inl e ↦ rw e (record {
        limit = v.limit;
        distinct = v.distinct;
        few = λ pos. omega (arith, v.few pos);
        emptied = v.emptied;
      })
      | inr (open_, new, e) ↦ rw e (record {
        limit = v.limit;
        distinct = append-Distinct w.relay.consumers c v.distinct new;
        few = λ pos. omega (arith, v.few pos, length-append w.relay.consumers (c ∷ []));
        emptied = λ cleared. absurd (let closing = (v.emptied cleared).0 in cc);
      })
    ]

close_relay_keeps :
    (r : Relay)
    → ((close_relay r).consumers ≡ r.consumers)
      × ((close_relay r).max_consumers ≡ r.max_consumers)
      × ((close_relay r).closing ≡ true)
unfolding close_relay
close_relay_keeps r = ground arith

-- Consumers are changed in place, and the limit is kept.
works-IsValid :
    (k max : ℕ) (w : World) (r : Relay)
    → SameIds w.relay.consumers r.consumers
    → r.max_consumers ≡ w.relay.max_consumers
    → (w.relay.closing ≡ true → r.closing ≡ true)
    → IsValid k max w
    → IsValid k max (on_relay w r)
works-IsValid k max w r same limit closing v = record {
  limit = limit ∙ v.limit;
  distinct = SameIds-Distinct w.relay.consumers r.consumers same v.distinct;
  few = λ pos. omega (arith, v.few pos, length-SameIds w.relay.consumers r.consumers same);
  emptied = λ c.
      let (was, none_left) = v.emptied c in
      (closing was, SameIds-nil r.consumers (subst (λ cs. SameIds cs r.consumers) none_left same));
}
  where
    SameIds-nil : (cs : List Consumer) → SameIds [] cs → cs ≡ []
    SameIds-nil [] s = refl
    SameIds-nil (c ∷ cs) s = absurd s

Keeps-same :
    (r r' : Relay)
    → Keeps r r'
    → (r'.consumers ≡ r.consumers) × (r'.max_consumers ≡ r.max_consumers) × (r'.closing ≡ r.closing)
unfolding start_relay set_headers set_last_codec_error store_packet close_buffer
Keeps-same r r' starts = ground arith
Keeps-same r r' (headers_come streams) = (refl, refl, refl)
Keeps-same r r' (fails e) = (refl, refl, refl)
Keeps-same r r' (stores pkt at stamp now) = (refl, refl, refl)
Keeps-same r r' closes_buffer = (refl, refl, refl)

same_ids : (cs ds : List Consumer) → ds ≡ cs → SameIds cs ds
same_ids cs ds e = subst (SameIds cs) (sym e) (SameIds-refl cs)

clear-IsValid :
    (k max : ℕ) (w : World)
    → IsValid k max w
    → IsValid k max
        (record w { relay = clear_consumers w.relay; cleared = w.cleared || w.relay.closing })
unfolding clear_consumers
clear-IsValid k max w v = record {
  limit = v.limit;
  distinct = tt;
  few = λ pos. omega (arith, v.few pos);
  emptied = λ c. (was (Bool-cases w.relay.closing) c, refl);
}
  where
    was :
        (w.relay.closing ≡ true) ⊎ (w.relay.closing ≡ false)
        → (w.cleared || w.relay.closing) ≡ true
        → w.relay.closing ≡ true
    was (inl closing) c = closing
    was (inr open_) c = (v.emptied (ground arith)).0

Step-IsValid : {k : ℕ} {w w' : World} (max : ℕ) → Step k w w' → IsValid k max w → IsValid k max w'
unfolding remove_consumer sweep
Step-IsValid {k} {w} max (keeps r op e) v =
    let (same, limit, closing) = Keeps-same w.relay r op in
    rw e (
      works-IsValid k max w r (same_ids w.relay.consumers r.consumers same) limit
        (λ was. closing ∙ was) v)
Step-IsValid {k} {w} max (begins id ok room e) v =
    let (open_, below) = check_add-open w.relay id ok in
    rw e (record {
      limit = v.limit;
      distinct = v.distinct;
      few = λ pos. omega (arith, room, v.limit, below (omega (arith, v.limit)));
      emptied = v.emptied;
    })
Step-IsValid {k} {w} max (finishes front back c was e) v =
    rw e (enlist-IsValid k max w front back c was v)
Step-IsValid {k} {w} max (gives_up front back id was e) v = rw e (record {
  limit = v.limit;
  distinct = v.distinct;
  few = λ pos. omega (arith, v.few pos, ap length was, length-middle front back id);
  emptied = v.emptied;
})
Step-IsValid {k} {w} max (removes id e) v = rw e (record {
  limit = v.limit;
  distinct = delete-Distinct id w.relay.consumers v.distinct;
  few = λ pos. omega (arith, v.few pos, length-delete id w.relay.consumers);
  emptied = λ c.
      let (closing, none_left) = v.emptied c in
      (closing, ap (delete id) none_left ∙ (unfold delete in refl));
})
Step-IsValid {k} {w} max (sweeps e) v = rw e (record {
  limit = v.limit;
  distinct = actives-Distinct w.relay.consumers v.distinct;
  few = λ pos. omega (arith, v.few pos, length-actives w.relay.consumers);
  emptied = λ c.
      let (closing, none_left) = v.emptied c in
      (closing, ap actives none_left ∙ (unfold actives in refl));
})
Step-IsValid {k} {w} max (closes e) v =
    let (same, limit, closing) = close_relay_keeps w.relay in
    rw e (
      works-IsValid k max w (close_relay w.relay)
        (same_ids w.relay.consumers (close_relay w.relay).consumers same) limit (λ was. closing) v)
Step-IsValid {k} {w} max (ends e) v = rw e (clear-IsValid k max w v)
Step-IsValid {k} {w} max (delivers pkt r d e) v =
    let (same, limit, closing) = deliver-SameIds w.relay pkt r d in
    rw e (works-IsValid k max w r same limit (λ was. closing ∙ was) v)
Step-IsValid {k} {w} max (works cs same e) v =
    rw e (works-IsValid k max w (record w.relay { consumers = cs }) same refl (λ was. was) v)

Reach-IsValid : {k : ℕ} {w w' : World} (max : ℕ) → IsValid k max w → Reach k w w' → IsValid k max w'
Reach-IsValid max v here = v
Reach-IsValid max v (next r st) = Step-IsValid max st (Reach-IsValid max v r)

-- What holds after the goroutine's deletion on a closing relay.
abbrev pub WhenCleared : Bool → Relay → Type 0
WhenCleared false r = Unit
WhenCleared true r = (r.closing ≡ true) × (r.consumers ≡ [])

when_cleared : (cleared : Bool) (r : Relay) → IsEmptied cleared r → WhenCleared cleared r
when_cleared false r h = tt
when_cleared true r h = h refl

-- In every state that a new relay with a limit can reach while `Start`, calls of `AddConsumer`,
-- `RemoveConsumer` and `Close`, the relay's goroutine, its ticker, deliveries and the consumers' own
-- goroutines interleave, with at most `k` calls of `AddConsumer` in flight, no two consumers have the
-- same id, and the limit is passed by `k - 1` at most: not at all if the calls do not overlap. Once the
-- goroutine has deleted the consumers of a relay that is closing, it has none.
pub Reach-limit :
    {k max : ℕ} {w : World} (window queue : ℕ)
    → 0 < max
    → Reach k (new_world max window queue) w
    → Distinct w.relay.consumers
      × (suc (length w.relay.consumers) ≤ max + k)
      × WhenCleared w.cleared w.relay
Reach-limit {k} {max} {w} window queue pos reach =
    let v = Reach-IsValid max start reach in
    (v.distinct, omega (arith, v.few pos), when_cleared w.cleared w.relay v.emptied)
  where
    start : IsValid k max (new_world max window queue)
    start =
        unfold new_relay in
        record { limit = refl; distinct = tt; few = λ p. omega arith; emptied = λ c. absurd (cc) }
