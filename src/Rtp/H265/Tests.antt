-- ===== src/Rtp/H265/Tests.antt =====
-- The H.265 depacketizer on concrete packets. The types of the bytes 0x26, 0x02, 0x42, 0x40 and 0x60
-- are IDR_W_RADL, TRAIL_R, VPS and 48, the aggregation packet; 42 is CRA_NUT.
use vrtc_sdk.Prelude.{ℕ, ◌≡◌, refl, arith, false, List, [], ◌∷◌, ◌++◌}
use vrtc_sdk.Rtp.H265.{
  Parser, AccessUnit, fresh, returns, panics, nothing, push_nalu, push_rtp, handle_nalu,
}
use vrtc_sdk.Rtp.H265.Conserve.{feed, feed_conserves, all_nalus, without_auds, AreUnits}
use vrtc_sdk.Rtp.H265.Fragments.{fu_reassembles, fu_payload, fu_rest, push_all}
use vrtc_sdk.Rtp.H265.Faults.{push_rtp-panics, cra_joined}

abbrev pushed_nalus : List (List ℕ)
pushed_nalus = (0x46 ∷ 1 ∷ []) ∷ (0x26 ∷ 1 ∷ 0x80 ∷ []) ∷ (0x02 ∷ 1 ∷ 0x80 ∷ []) ∷ []

feed_conserves_example :
    (r : List AccessUnit × Parser) × (feed fresh pushed_nalus ≡ returns r)
    × (all_nalus r.0 ++ r.1.current ≡ fresh.current ++ without_auds pushed_nalus)
    × AreUnits r.0
unfolding fresh
feed_conserves_example = feed_conserves fresh pushed_nalus tt (tt, (tt, (tt, tt)))

fu_reassembles_example :
    push_all fresh (fu_payload 0x80 0x26 1 (7 ∷ []) ∷ fu_rest 0x26 1 ((8 ∷ 9 ∷ []) ∷ []) (10 ∷ []))
    ≡ handle_nalu
        (record fresh { fu_buffer = 0x26 ∷ 1 ∷ 7 ∷ 8 ∷ 9 ∷ 10 ∷ []; fu_active = false })
        (0x26 ∷ 1 ∷ 7 ∷ 8 ∷ 9 ∷ 10 ∷ [])
fu_reassembles_example =
    fu_reassembles 0x26 1 fresh (7 ∷ []) ((8 ∷ 9 ∷ []) ∷ []) (10 ∷ []) (omega arith)

push_rtp-panics_example : push_rtp fresh (0x60 ∷ 1 ∷ 0 ∷ 0 ∷ []) ≡ panics
push_rtp-panics_example = push_rtp-panics fresh 0x60 1 [] refl

cra_is_joined :
    push_nalu (record fresh { current = (42 ∷ 1 ∷ 0x80 ∷ []) ∷ [] }) (0x02 ∷ 1 ∷ 0x80 ∷ [])
    ≡ returns
        (nothing, record fresh { current = (42 ∷ 1 ∷ 0x80 ∷ []) ∷ (0x02 ∷ 1 ∷ 0x80 ∷ []) ∷ [] })
cra_is_joined = cra_joined fresh (42 ∷ 1 ∷ 0x80 ∷ []) (0x02 ∷ 1 ∷ 0x80 ∷ []) tt refl tt refl
