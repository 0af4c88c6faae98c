-- ===== src/Pva/Store/Distance.antt =====
-- The distance that `diff` gives, on times it can tell apart.
use vrtc_sdk.Prelude.{ℕ, ◌+◌, ◌-◌, ◌*◌, ◌^◌, ◌≤◌, ◌<◌, ◌≡◌, arith, true, false}
use vrtc_sdk.Prelude.{ltb, if◌then◌else◌}
use vrtc_sdk.Prelude.Int.{pos, ltb_ℤ, sub64}
use vrtc_sdk.Pva.Store.{Entry, diff, in_tolerance}

-- The true distance of two times.
abbrev pub distance : ℕ → ℕ → ℕ
distance a b = (a - b) + (b - a)

-- The time is less than 2 ^ 63 nanoseconds, some 292 years, after the entry.
abbrev pub IsRecent : ℕ → Entry → Type 0
IsRecent t e = t < e.wall_clock + 2 ^ 63

abbrev pub IsNear : ℕ → Entry → Type 0
IsNear t e = distance e.wall_clock t ≤ 200 * 10 ^ 6

diff_recent :
    (t : ℕ) (e : Entry)
    → IsRecent t e
    → diff e.wall_clock t
      ≡ pos (if ltb (distance e.wall_clock t) (2 ^ 63) then distance e.wall_clock t else 2 ^ 63 - 1)
unfolding diff sub64
diff_recent t e h = ground arith

pub in_tolerance-IsNear : (t : ℕ) (e : Entry) → IsRecent t e → in_tolerance t e ≡ true → IsNear t e
in_tolerance-IsNear t e h ok = ground (arith, diff_recent t e h)

pub far_of :
    (t : ℕ) (e : Entry)
    → IsRecent t e
    → in_tolerance t e ≡ false
    → 200 * 10 ^ 6 < distance e.wall_clock t
far_of t e h far = ground (arith, diff_recent t e h)

pub nearer_of :
    (t : ℕ) (p x : Entry)
    → IsRecent t p
    → IsRecent t x
    → ltb_ℤ (diff p.wall_clock t) (diff x.wall_clock t) ≡ true
    → distance p.wall_clock t ≤ distance x.wall_clock t
nearer_of t p x hp hx lt = ground (arith, diff_recent t p hp, diff_recent t x hx)

pub not_nearer_of :
    (t : ℕ) (p x : Entry)
    → IsRecent t p
    → IsRecent t x
    → in_tolerance t p ≡ true
    → ltb_ℤ (diff p.wall_clock t) (diff x.wall_clock t) ≡ false
    → distance x.wall_clock t ≤ distance p.wall_clock t
not_nearer_of t p x hp hx ok ge = ground (arith, diff_recent t p hp, diff_recent t x hx)

pub self-in_tolerance : (e : Entry) → in_tolerance e.wall_clock e ≡ true
self-in_tolerance e = ground (arith, diff_recent e.wall_clock e (omega arith))

-- Nothing is nearer to the time of an entry than the entry.
pub not_nearer_self :
    (e p : Entry)
    → IsRecent e.wall_clock p
    → ltb_ℤ (diff p.wall_clock e.wall_clock) (diff e.wall_clock e.wall_clock) ≡ false
not_nearer_self e p h =
    ground (arith, diff_recent e.wall_clock e (omega arith), diff_recent e.wall_clock p h)
