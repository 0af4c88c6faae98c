-- ===== src/Pva/Store/Tests.antt =====
-- A store with three entries.
use vrtc_sdk.Prelude.{ℕ, ◌≡◌, refl, ◌+◌, ◌^◌, arith, some, List, [], ◌∷◌}
use vrtc_sdk.Prelude.Int.{sub64}
use vrtc_sdk.Prelude.Search.{search}
use vrtc_sdk.Pva.Store.{
  Entry, diff, put_entries, lookup_entry, choose, is_fresh, new_analytics_store, put, lookup, find,
  update,
}
use vrtc_sdk.Pva.Store.{new_analytics_hub, subscribe, broadcast, send_all, Channel}
use vrtc_sdk.Pva.Store.Order.{IsSorted, keep, insert, put_entries-insert}
use vrtc_sdk.Pva.Store.RoundTrip.{lookup-put, KeptRecent}
use vrtc_sdk.Pva.Store.{AnalyticsStore}
use vrtc_sdk.Pva.Store.Nearest.{Nearest, lookup_entry-Nearest}

abbrev entry_at : ℕ → Entry
entry_at t = record { wall_clock = t; analytics = t + 1 }

abbrev three : List Entry
three = entry_at 100 ∷ entry_at 300 ∷ entry_at 500 ∷ []

three-IsSorted : IsSorted three
three-IsSorted = ((omega arith, (omega arith, tt)), ((omega arith, tt), (tt, tt)))

put_entries-insert_example :
    (put_entries 250 400 three (entry_at 400)
      ≡ insert (entry_at 400) (keep (is_fresh 250 400) three))
    × IsSorted (put_entries 250 400 three (entry_at 400))
put_entries-insert_example = put_entries-insert 250 400 three (entry_at 400) three-IsSorted

lookup_entry-Nearest_example : Nearest 280 three (lookup_entry three 280)
lookup_entry-Nearest_example =
    lookup_entry-Nearest three 280 three-IsSorted (omega arith, (omega arith, (omega arith, tt)))

put_then_lookup : lookup (put (new_analytics_store 1000) "door" 500 7 600) "door" 520 ≡ some 7
unfolding lookup put new_analytics_store find update lookup_entry choose put_entries search
put_then_lookup = refl

abbrev received : List Channel
received = find "door" (broadcast (subscribe new_analytics_hub "door").1 "door" 7).subs

received_seven : received ≡ record { number = 0; buffer = 7 ∷ [] } ∷ []
unfolding find update broadcast subscribe send_all new_analytics_hub
received_seven = refl

abbrev two_doors : AnalyticsStore
two_doors = record { ttl = 250; entries_of = ("gate", entry_at 7 ∷ []) ∷ ("door", three) ∷ [] }

door-IsSorted : IsSorted (find "door" two_doors.entries_of)
unfolding find
door-IsSorted = three-IsSorted

door-recent : KeptRecent 250 400 300 (find "door" two_doors.entries_of)
unfolding find
door-recent = (λ f. omega arith, (λ f. omega arith, (λ f. omega arith, tt)))

-- An entry with the zero time is taken for one of 292 years later.
far_off : lookup_entry (entry_at 0 ∷ []) (2 ^ 63) ≡ some (entry_at 0)
unfolding lookup_entry choose search diff sub64
far_off = refl

lookup-put_example : lookup (put two_doors "door" 300 9 400) "door" 300 ≡ some 9
lookup-put_example = lookup-put two_doors "door" 300 9 400 door-IsSorted door-recent
