-- ===== src/Pva/Merge.antt =====
-- av/pva/merger.go and blocking_merger.go: analytics on the packets of a demuxer.
-- The inner demuxer enters as its answer to `ReadPacket`, and the source as the function that its
-- `Fetch` is at the time of the call.
mod Tests
use vrtc_sdk.Prelude.{
  ℕ, Bool, true, false, not, ◌||◌, ◌==◌, Option, none, some, List, [], ◌∷◌, if◌then◌else◌,
}
use vrtc_sdk.Prelude.Int.{ℤ}
use vrtc_sdk.Av.{Packet, is_video}
use vrtc_sdk.Chain.{Result, ok, err}

abbrev pub Fetch : Type 0
Fetch = ℤ → ℕ → Option ℕ

-- `ReadPacket` of the MetadataMerger.
pub merge_packet : Fetch → Result Packet → Result Packet
merge_packet fetch (err e) = err e
merge_packet fetch (ok pkt) = ok (elim (fetch pkt.frame_id pkt.wall_clock_time) [
  | none ↦ pkt
  | some fa ↦ record pkt { analytics = some fa }
])

-- What wakes a BlockingMerger: a message of the hub, after which it fetches again, the end of the
-- hub's channel, of its context, or of its wait.
pub data Wake : Type 0 where
  notified : Fetch → Wake
  closed cancelled expired : Wake

-- The loop; `none` is still waiting.
pub wait_loop : Packet → List Wake → Option Packet
wait_loop pkt [] = none
wait_loop pkt (notified fetch ∷ later) = elim (fetch pkt.frame_id pkt.wall_clock_time) [
  | none ↦ wait_loop pkt later
  | some fa ↦ some (record pkt { analytics = some fa })
]
wait_loop pkt (_ ∷ later) = some pkt

-- `ReadPacket` of the BlockingMerger, with the source before and after it subscribes.
pub block_packet : Fetch → Fetch → List Wake → Result Packet → Option (Result Packet)
unfolding wait_loop
block_packet first second wakes (err e) = some (err e)
block_packet first second wakes (ok pkt) =
    let waited = elim (wait_loop pkt wakes) as (λ _. Option (Result Packet)) [
      | none ↦ none
      | some p ↦ some (ok p)
    ] in
    let slow = elim (second pkt.frame_id pkt.wall_clock_time) as (λ _. Option (Result Packet)) [
      | none ↦ waited
      | some fa ↦ some (ok (record pkt { analytics = some fa }))
    ] in
    if not (is_video pkt.codec_type) || pkt.wall_clock_time == 0
    then some (ok pkt)
    else elim (first pkt.frame_id pkt.wall_clock_time) [
      | none ↦ slow
      | some fa ↦ some (ok (record pkt { analytics = some fa }))
    ]
