-- ===== src/Pva/Store/RoundTrip.antt =====
-- A lookup after a put.
use vrtc_sdk.Prelude.{
  ℕ, ◌≡◌, refl, ap, ◌∙◌, arith, inl, inr, true, false, Option, none, some, List, [], ◌∷◌,
}
use vrtc_sdk.Prelude.{ltb, Bool-cases, All}
use text.Mathlib.Text.{◌==◌ as str_eq}
use text.Mathlib.TextEquality.{eq_iff}
use Prim.Native.String.{String}
use vrtc_sdk.Pva.Store.{
  Entry, AnalyticsStore, put, put_entries, lookup, lookup_entry, choose, in_tolerance, is_fresh,
  find, update,
}
use vrtc_sdk.Pva.Store.Order.{IsSorted, insert, keep, All-keep, put_entries-insert}
use vrtc_sdk.Pva.Store.Distance.{IsRecent, self-in_tolerance, not_nearer_self}
use vrtc_sdk.Pva.Store.Nearest.{scan, OnPrev, lookup_entry-scan}

choose_self :
    (e : Entry) (prev : Option Entry)
    → OnPrev prev (IsRecent e.wall_clock)
    → choose e.wall_clock (some e) prev ≡ some e
unfolding choose
choose_self e none b = rw (self-in_tolerance e) refl
choose_self e (some p) b = elim (Bool-cases (in_tolerance e.wall_clock p)) [
  | inl h ↦ rw (self-in_tolerance e, h) (rw (not_nearer_self e p b) refl)
  | inr h ↦ rw (self-in_tolerance e, h) refl
]

not_before : (t : ℕ) → ltb t t ≡ false
not_before t = ground arith

scan-insert :
    (e : Entry) (prev : Option Entry) (xs : List Entry)
    → OnPrev prev (IsRecent e.wall_clock)
    → All (IsRecent e.wall_clock) xs
    → scan e.wall_clock prev (insert e xs) ≡ some e
unfolding scan insert
scan-insert e prev [] b recent = rw (not_before e.wall_clock) (choose_self e prev b)
scan-insert e prev (x ∷ xs) b recent = elim (Bool-cases (ltb x.wall_clock e.wall_clock)) [
  | inl h ↦ rw (h, h) (scan-insert e (some x) xs recent.0 recent.1)
  | inr h ↦ rw (h, not_before e.wall_clock) (choose_self e prev b)
]

-- The entries that `Put` keeps are recent.
abbrev pub KeptRecent : ℕ → ℕ → ℕ → List Entry → Type 0
KeptRecent ttl now t xs = All (λ x. is_fresh ttl now x ≡ true → IsRecent t x) xs

str_eq_refl : (k : String) → str_eq k k ≡ true
str_eq_refl k = ground (arith, eq_iff k k)

find-update {ℓ} :
    {A : Type ℓ} (k : String) (v : List A) (m : List (String × List A)) → find k (update k v m) ≡ v
unfolding find update
find-update k v [] = rw (str_eq_refl k) refl
find-update k v ((j, w) ∷ m) = elim (Bool-cases (str_eq j k)) [
  | inl h ↦ rw h (rw (str_eq_refl k) refl)
  | inr h ↦ rw (h, h) (find-update k v m)
]

lookup_entry-put_entries :
    (ttl now : ℕ) (xs : List Entry) (e : Entry)
    → IsSorted xs
    → KeptRecent ttl now e.wall_clock xs
    → lookup_entry (put_entries ttl now xs e) e.wall_clock ≡ some e
lookup_entry-put_entries ttl now xs e s recent =
    let placed = put_entries-insert ttl now xs e s in
    lookup_entry-scan (put_entries ttl now xs e) e.wall_clock placed.1
    ∙ ap (λ l. scan e.wall_clock none l) placed.0
    ∙ scan-insert e none (keep (is_fresh ttl now) xs) tt
        (All-keep (is_fresh ttl now) (IsRecent e.wall_clock) xs recent)

-- When the entries of a source are in order of time, and those not older than the store's limit are less
-- than 2 ^ 63 nanoseconds before a time, analytics that were put for that time are what a lookup for that
-- source and time gives, whatever the store holds for other sources and however old the time is.
pub lookup-put :
    (s : AnalyticsStore) (source : String) (t a now : ℕ)
    → IsSorted (find source s.entries_of)
    → KeptRecent s.ttl now t (find source s.entries_of)
    → lookup (put s source t a now) source t ≡ some a
unfolding lookup put
lookup-put s source t a now h recent =
    let e : Entry = record { wall_clock = t; analytics = a } in
    let xs = find source s.entries_of in
    ap (λ o. elim o as (λ _. Option ℕ) [ none ↦ none | some x ↦ some x.analytics ])
      (ap (λ l. lookup_entry l t) (find-update source (put_entries s.ttl now xs e) s.entries_of)
        ∙ lookup_entry-put_entries s.ttl now xs e h recent)
