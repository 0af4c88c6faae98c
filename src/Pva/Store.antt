-- ===== src/Pva/Store.antt =====
-- av/pva/store.go: analytics by source and wall-clock time, and their subscribers.
-- A time is its distance in nanoseconds from the zero Time; an analytics pointer is a number. Maps are
-- association lists. A method holds its lock for its whole body, and `Broadcast` sends without waiting.
pub mod Order
pub mod Distance
pub mod Nearest
pub mod RoundTrip
mod Tests
use vrtc_sdk.Prelude.{
  ℕ, ◌+◌, ◌-◌, ◌*◌, ◌^◌, Bool, true, false, not, Option, none, some, List, [], ◌∷◌, ◌++◌,
}
use vrtc_sdk.Prelude.{ltb, leb, ◌==◌, if◌then◌else◌, length, take, drop, get_elem?}
use vrtc_sdk.Prelude.Int.{ℤ, pos, negsuc, ltb_ℤ, sub64}
use vrtc_sdk.Prelude.Search.{search, at}
use text.Mathlib.Text.{◌==◌ as str_eq}
use Prim.Native.String.{String}

pub record Entry : Type 0 where
  pub wall_clock : ℕ
  pub analytics : ℕ

pub record AnalyticsStore : Type 0 where
  pub ttl : ℕ
  pub entries_of : List (String × List Entry)

pub new_analytics_store : ℕ → AnalyticsStore
new_analytics_store ttl = record { ttl = ttl; entries_of = [] }

-- A map of lists; a missing key has the empty list.
pub find {ℓ} : {A : Type ℓ} → String → List (String × List A) → List A
find k [] = []
find k ((j, v) ∷ m) = if str_eq j k then v else find k m

pub update {ℓ} : {A : Type ℓ} → String → List A → List (String × List A) → List (String × List A)
update k v [] = (k, v) ∷ []
update k v ((j, w) ∷ m) = if str_eq j k then (k, v) ∷ m else (j, w) ∷ update k v m

-- `wallClock.After(cutoff)` with `cutoff` the time `ttl` ago.
abbrev pub is_fresh : ℕ → ℕ → Entry → Bool
is_fresh ttl now e = ltb now (e.wall_clock + ttl)

-- `!wallClock.Before(t)`.
abbrev pub is_from : ℕ → Entry → Bool
is_from t e = not (ltb e.wall_clock t)

-- The slice that `Put` makes of the entries of a source.
pub put_entries : ℕ → ℕ → List Entry → Entry → List Entry
put_entries ttl now entries e =
    let kept = drop (search (length entries) (at (is_fresh ttl now) entries)) entries in
    let pos = search (length kept) (at (is_from e.wall_clock) kept) in
    take pos kept ++ (e ∷ drop pos kept)

pub put : AnalyticsStore → String → ℕ → ℕ → ℕ → AnalyticsStore
unfolding put_entries find update
put s source wall_clock a now =
    let e : Entry = record { wall_clock = wall_clock; analytics = a } in
    record s {
      entries_of = update source (put_entries s.ttl now (find source s.entries_of) e) s.entries_of;
    }

-- 200 ms.
abbrev pub match_tolerance : ℕ
match_tolerance = 200 * 10 ^ 6

-- `a.Sub(b)`, an int64 of nanoseconds: a difference out of its range is its least or greatest value.
abbrev pub time_sub : ℕ → ℕ → ℤ
time_sub a b =
    if ltb a b
    then negsuc (if ltb (b - a) (2 ^ 63) then b - a - 1 else 2 ^ 63 - 1)
    else pos (if ltb (a - b) (2 ^ 63) then a - b else 2 ^ 63 - 1)

-- The negation of the least int64 is itself.
pub diff : ℕ → ℕ → ℤ
unfolding sub64
diff a b = let d = time_sub a b in if ltb_ℤ d (pos 0) then sub64 (pos 0) d else d

abbrev pub in_tolerance : ℕ → Entry → Bool
in_tolerance target e = not (ltb_ℤ (pos match_tolerance) (diff e.wall_clock target))

-- The choice between the first entry from `target` on and the one before it.
pub choose : ℕ → Option Entry → Option Entry → Option Entry
unfolding diff
choose target next prev =
    let best = elim next as (λ _. Option Entry) [
      | none ↦ none
      | some e ↦ if in_tolerance target e then some e else none
    ] in
    elim prev [
      | none ↦ best
      | some e ↦
          let nearer = elim best as (λ _. Bool) [
            | none ↦ true
            | some b ↦ ltb_ℤ (diff e.wall_clock target) (diff b.wall_clock target)
          ] in
          if in_tolerance target e then (if nearer then some e else best) else best
    ]

-- The entry that `lookup` ends with.
pub lookup_entry : List Entry → ℕ → Option Entry
unfolding choose
lookup_entry entries target =
    let pos = search (length entries) (at (is_from target) entries) in
    choose target (get_elem? entries pos) (if ltb 0 pos then get_elem? entries (pos - 1) else none)

pub lookup : AnalyticsStore → String → ℕ → Option ℕ
unfolding lookup_entry find
lookup s source target = elim (lookup_entry (find source s.entries_of) target) [
  | none ↦ none
  | some e ↦ some e.analytics
]

-- A subscriber's channel, told from others by its number, with what it has not received yet.
pub record Channel : Type 0 where
  pub number : ℕ
  pub buffer : List ℕ

pub record AnalyticsHub : Type 0 where
  pub subs : List (String × List Channel)
  pub made : ℕ

pub new_analytics_hub : AnalyticsHub
new_analytics_hub = record { subs = []; made = 0 }

pub subscribe : AnalyticsHub → String → ℕ × AnalyticsHub
unfolding find update
subscribe h source = (
  h.made,
  record {
    subs =
        update source (find source h.subs ++ (record { number = h.made; buffer = [] } ∷ [])) h.subs;
    made = h.made + 1;
  },
)

pub drop_channel : ℕ → List Channel → List Channel
drop_channel n [] = []
drop_channel n (c ∷ cs) = if c.number == n then cs else c ∷ drop_channel n cs

pub unsubscribe : AnalyticsHub → String → ℕ → AnalyticsHub
unfolding find update drop_channel
unsubscribe h source n = record h {
  subs = update source (drop_channel n (find source h.subs)) h.subs;
}

-- A channel that is full misses the analytics.
pub send_all : List Channel → ℕ → List Channel
send_all [] a = []
send_all (c ∷ cs) a =
    (if ltb (length c.buffer) 16 then record c { buffer = c.buffer ++ (a ∷ []) } else c)
    ∷ send_all cs a

pub broadcast : AnalyticsHub → String → ℕ → AnalyticsHub
unfolding find update send_all
broadcast h source a = record h { subs = update source (send_all (find source h.subs) a) h.subs }

-- `Handle` of the pipeline, without its optional writer.
pub handle : AnalyticsStore → AnalyticsHub → String → ℕ → ℕ → ℕ → AnalyticsStore × AnalyticsHub
unfolding put broadcast
handle store hub source wall_clock a now =
    (put store source wall_clock a now, broadcast hub source a)
