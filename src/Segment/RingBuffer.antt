-- ===== src/Segment/RingBuffer.antt =====
-- av/segment/ringbuf.go. The clock enters as the time that `Push` reads; `notify` counts the channels
-- that were made, as in the packet buffer. Slices are copied on the way out, so a fragment list is a
-- value.
pub mod Laws
mod Tests
use vrtc_sdk.Prelude.{
  ℕ, ◌+◌, Bool, not, List, [], ◌∷◌, ◌++◌, Option, none, some, ltb, if◌then◌else◌, length, drop,
}
use vrtc_sdk.Prelude.Int.{ℤ, ltb_ℤ}
use vrtc_sdk.Prelude.Scan.{count_while}

pub record Fragment : Type 0 where
  pub dts : ℤ
  pub duration : ℤ
  pub key_frame : Bool
  pub body : List ℕ
  pub timestamp : ℕ

pub record RingBuffer : Type 0 where
  pub fragments : List Fragment
  pub max_age : ℕ
  pub notify : ℕ

pub new_ring_buffer : ℕ → RingBuffer
new_ring_buffer max_age = record { fragments = []; max_age = max_age; notify = 0 }

-- `Timestamp.Before(now.Add(-maxAge))`.
pub is_expired : ℕ → ℕ → Fragment → Bool
is_expired now max_age f = ltb (f.timestamp + max_age) now

pub push : RingBuffer → Fragment → ℕ → RingBuffer
push rb frag now =
    let fragments = rb.fragments ++ (frag ∷ []) in
    let i = count_while (is_expired now rb.max_age) fragments in
    record rb {
      fragments = if ltb 0 i then drop i fragments else fragments;
      notify = rb.notify + 1;
    }

-- The loop of `ReadFrom`: the index of the first fragment that is not before `from_dts`.
pub find_from : ℤ → List Fragment → ℕ → Option ℕ
find_from from_dts [] i = none
find_from from_dts (f ∷ fs) i =
    let rest = find_from from_dts fs (i + 1) in if not (ltb_ℤ f.dts from_dts) then some i else rest

-- The empty list stands for nil.
pub read_from : RingBuffer → ℤ → List Fragment
unfolding find_from
read_from rb from_dts = elim (find_from from_dts rb.fragments 0) [
  | none ↦ []
  | some idx ↦ drop idx rb.fragments
]

pub len : RingBuffer → ℕ
len rb = length rb.fragments

total_bytes : List Fragment → ℕ
total_bytes [] = 0
total_bytes (f ∷ fs) = length f.body + total_bytes fs

pub size_bytes : RingBuffer → ℕ
unfolding total_bytes
size_bytes rb = total_bytes rb.fragments

-- `Wait` takes the channel `k` and blocks until it is closed, by a push after it was taken.
pub is_woken : RingBuffer → ℕ → Bool
is_woken rb k = ltb k rb.notify
