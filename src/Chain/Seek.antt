-- ===== src/Chain/Seek.antt =====
-- `Seek`: what is left of the chain after a success and after each kind of failure.
use vrtc_sdk.Prelude.{
  ◌≡◌, refl, ◌⊎◌, inl, inr, Bool-cases, Option-cases, Option, none, some, List, arith,
}
use vrtc_sdk.Prelude.Int.{ℤ, pos, ltb_ℤ}
use vrtc_sdk.Chain.Monotone.{Result-cases}
use vrtc_sdk.Chain.{
  Error, eof, seek_not_supported, Chain, Segment, Next, ok, err, Result, read_packet, seek,
  seek_within,
}

read_packet_closed : (c : Chain) → c.cur ≡ none → read_packet c ≡ (err eof, c)
unfolding read_packet
read_packet_closed c e = ground arith

abbrev Seeked : Result (Unit {0}) × Chain → Type 0
Seeked (r, c) =
    (r ≡ ok tt) × ((d : Segment) × (c.cur ≡ some d)) × (c.dts_off ≡ pos 0) × (c.last_end ≡ pos 0)

abbrev Stopped : Result (Unit {0}) × Chain → Type 0
Stopped (r, c) = (e : Error) × (r ≡ err e) × (c.cur ≡ none)

seek_within_cases :
    (c : Chain) (d : Segment) (seek_pts : ℤ)
    → c.cur ≡ none
    → Seeked (seek_within c d seek_pts) ⊎ Stopped (seek_within c d seek_pts)
unfolding seek_within
seek_within_cases c d seek_pts gone = elim (Result-cases d.codecs) [
  | inl (e, bad) ↦ rw (bad, seek_within) (inr (e, refl, gone))
  | inr (streams, good) ↦ elim (Bool-cases (ltb_ℤ (pos 0) seek_pts)) [
    | inr start ↦ rw (good, seek_within) (rw start (inl (refl, (_, refl), refl, refl)))
    | inl inside ↦ elim (Option-cases d.seek_to_keyframe) [
      | inl other ↦
          rw (good, seek_within)
            (rw inside (rw (other, seek_within) (inl (refl, (_, refl), refl, refl))))
      | inr (seek_key, fmp4) ↦ elim (Result-cases (seek_key seek_pts)) [
        | inl (e, bad) ↦
            rw (good, seek_within)
              (rw inside (rw (fmp4, seek_within) (rw bad (inr (e, refl, gone)))))
        | inr (reads, found) ↦
            rw (good, seek_within)
              (rw inside (rw (fmp4, seek_within) (rw found (inl (refl, (_, refl), refl, refl)))))
      ]
    ]
  ]
]

-- A successful seek has a current segment and starts its timestamps anew; a failed one either found
-- no seekable source, and changed nothing, or leaves a chain whose `ReadPacket` answers io.EOF.
pub seek_outcome :
    (c : Chain) (open_at : Option (Result Segment × List Next)) (seek_pts : ℤ)
    → let (r, c') = seek c open_at seek_pts in
      ((r ≡ ok tt)
        × ((d : Segment) × (c'.cur ≡ some d))
        × (c'.dts_off ≡ pos 0)
        × (c'.last_end ≡ pos 0))
      ⊎ ((r ≡ err seek_not_supported) × (open_at ≡ none) × (c' ≡ c))
      ⊎ ((e : Error) × (r ≡ err e) × (read_packet c' ≡ (err eof, c')))
unfolding seek read_packet
seek_outcome c none seek_pts = inr (inl (refl, refl, refl))
seek_outcome c (some (err e, more)) seek_pts = inr (inr (e, refl, refl))
seek_outcome c (some (ok d, more)) seek_pts =
    elim (seek_within_cases (record c { source = more; cur = none }) d seek_pts refl) [
      | inl done ↦ inl done
      | inr (e, failed, gone) ↦ inr (inr (e, failed, read_packet_closed _ gone))
    ]
