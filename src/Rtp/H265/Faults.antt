-- ===== src/Rtp/H265/Faults.antt =====
-- Packets that the H.265 parser is not ready for.
use vrtc_sdk.Prelude.{ℕ, ◌≡◌, refl, ap, arith, false, List, [], ◌∷◌, ◌++◌, ◌∙◌}
use vrtc_sdk.Rtp.H265.{
  returns, panics, Parser, Pushed, nothing, push_rtp, parse_ap, ap_loop, push_nalu, nalu_type,
  type_of,
}
use vrtc_sdk.Rtp.H265.Conserve.{
  NonEmpty, head_type, is_aud, is_vcl, any, Outcome, dropped, joined, split, push_nalu-Outcome,
}

-- An aggregation packet whose first unit has size 0 makes the parser panic, in every state.
pub push_rtp-panics :
    (p : Parser) (h0 h1 : ℕ) (rest : List ℕ)
    → type_of h0 ≡ 48
    → push_rtp p (h0 ∷ h1 ∷ 0 ∷ 0 ∷ rest) ≡ panics
unfolding push_rtp parse_ap ap_loop push_nalu nalu_type
push_rtp-panics p h0 h1 rest t = ground arith

joins_only :
    (q : Parser) (n : List ℕ) (out : Pushed × Parser)
    → Outcome q n out
    → is_aud n ≡ false
    → any is_vcl q.current ≡ false
    → out ≡ (nothing, record q { current = q.current ++ (n ∷ []) })
joins_only q n out (dropped aud) video none_yet = absurd (cc)
joins_only q n out (joined v) video none_yet = refl
joins_only q n out (split v vcl) video none_yet = absurd (cc)

-- After a CRA picture (NAL type 21, an IRAP picture) no further NALU starts a new access unit, also if
-- it is the first slice of the next picture: it joins the pending CRA slice.
pub cra_joined :
    (p : Parser) (cra next : List ℕ)
    → NonEmpty cra
    → head_type cra ≡ 21
    → NonEmpty next
    → is_aud next ≡ false
    → push_nalu (record p { current = cra ∷ [] }) next
      ≡ returns (nothing, record p { current = cra ∷ next ∷ [] })
cra_joined p cra next ne cra_type ne' video =
    let (out, e, cases) = push_nalu-Outcome (record p { current = cra ∷ [] }) next (ne, tt) ne' in
    e
    ∙ ap returns (joins_only (record p { current = cra ∷ [] }) next out cases video (ground arith))
