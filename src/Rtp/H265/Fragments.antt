-- ===== src/Rtp/H265/Fragments.antt =====
-- Fragmentation units.
use vrtc_sdk.Prelude.{
  ℕ, ◌+◌, ◌*◌, ◌%◌, ◌^◌, ◌<◌, ◌≡◌, refl, ap, ◌∙◌, arith, Bool, true, false, not, List, [], ◌∷◌,
  ◌++◌,
}
use vrtc_sdk.Prelude.{bit_and, bit_or, append_assoc, ◌==◌, ==_iff}
use vrtc_sdk.Prelude.Table.{holds_below, by_table}
use vrtc_sdk.Rtp.H265.{
  Run, returns, panics, stuck, Parser, Pushed, nothing, ready, invalid_payload, invalid_fu,
  push_rtp, handle_nalu, parse_fu, type_of, ◌>>=◌,
}

-- The payload header of a fragment of a NALU that starts with `h0`: its type is 49.
abbrev pub fu_indicator : ℕ → ℕ
fu_indicator h0 = bit_or (bit_and h0 0x81) (49 * 2)

-- A packet of RFC 7798: the payload header, and the FU header with the flags and the NALU's type.
abbrev pub fu_payload : ℕ → ℕ → ℕ → List ℕ → List ℕ
fu_payload flags h0 h1 chunk = fu_indicator h0 ∷ h1 ∷ (flags + type_of h0) ∷ chunk

-- The fragments after the first: those in between, and the last with the end bit.
abbrev pub fu_rest : ℕ → ℕ → List (List ℕ) → List ℕ → List (List ℕ)
fu_rest h0 h1 [] last = fu_payload 0x40 h0 h1 last ∷ []
fu_rest h0 h1 (c ∷ cs) last = fu_payload 0 h0 h1 c ∷ fu_rest h0 h1 cs last

abbrev pub concat : List (List ℕ) → List ℕ → List ℕ
concat [] last = last
concat (c ∷ cs) last = c ++ concat cs last

-- `PushRTP` on packets in order, until it returns something.
unfoldable pub push_all : Parser → List (List ℕ) → Run (Pushed × Parser)
push_all p [] = returns (nothing, p)
push_all p (x ∷ xs) = push_rtp p x >>= λ (out, p').
    let rest = push_all p' xs in
    elim out [
      | nothing ↦ rest
      | ready au ↦ returns (ready au, p')
      | invalid_payload ↦ returns (invalid_payload, p')
      | invalid_fu ↦ returns (invalid_fu, p')
    ]

-- What the parser reads of the headers of a fragment with the given flags.
type_test : ℕ → Bool
type_test h0 = type_of (fu_indicator h0) == 49

indicator_test : ℕ → Bool
indicator_test h0 =
    bit_or (bit_and (fu_indicator h0) 0x81) (bit_and (0x80 + type_of h0) 0x3F * 2 ^ 1 % 256) == h0

flag_test : ℕ → ℕ → Bool → ℕ → Bool
flag_test flags mask set h0 = elim set [
  | true ↦ not (bit_and (flags + type_of h0) mask == 0)
  | false ↦ bit_and (flags + type_of h0) mask == 0
]

type_ok : (h0 : ℕ) → h0 < 256 → (type_of (fu_indicator h0) == 49) ≡ true
unfolding holds_below type_test
type_ok = by_table 256 type_test refl

header_ok :
    (h0 : ℕ)
    → h0 < 256
    → bit_or (bit_and (fu_indicator h0) 0x81) (bit_and (0x80 + type_of h0) 0x3F * 2 ^ 1 % 256) ≡ h0
unfolding holds_below indicator_test
header_ok h0 h = (==_iff _ h0).0 (by_table 256 indicator_test refl h0 h)

flag_ok :
    (flags mask : ℕ) (set : Bool)
    → holds_below 256 (flag_test flags mask set) ≡ true
    → (h0 : ℕ) → h0 < 256
    → (not (bit_and (flags + type_of h0) mask == 0)) ≡ set
unfolding flag_test
flag_ok flags mask true t h0 h = by_table 256 (flag_test flags mask true) t h0 h
flag_ok flags mask false t h0 h = ap not (by_table 256 (flag_test flags mask false) t h0 h)

module _ (h0 h1 : ℕ) (byte : h0 < 256) where
  fu_start :
      (p : Parser) (chunk : List ℕ)
      → push_rtp p (fu_payload 0x80 h0 h1 chunk)
        ≡ returns (nothing, record p { fu_buffer = h0 ∷ h1 ∷ chunk; fu_active = true })
  unfolding push_rtp parse_fu holds_below flag_test
  fu_start p chunk =
      ground (arith, type_ok h0 byte, header_ok h0 byte, flag_ok 0x80 0x80 true refl h0 byte)

  fu_middle :
      (p : Parser) (chunk : List ℕ)
      → p.fu_active ≡ true
      → push_rtp p (fu_payload 0 h0 h1 chunk)
        ≡ returns (nothing, record p { fu_buffer = p.fu_buffer ++ chunk })
  unfolding push_rtp parse_fu holds_below flag_test
  fu_middle p chunk a =
      ground (
        arith,
        type_ok h0 byte,
        flag_ok 0 0x80 false refl h0 byte,
        flag_ok 0 0x40 false refl h0 byte,
      )

  fu_end :
      (p : Parser) (chunk : List ℕ)
      → p.fu_active ≡ true
      → push_rtp p (fu_payload 0x40 h0 h1 chunk)
        ≡ handle_nalu
            (record p { fu_buffer = p.fu_buffer ++ chunk; fu_active = false })
            (p.fu_buffer ++ chunk)
  unfolding push_rtp parse_fu holds_below flag_test
  fu_end p chunk a = ground (
    arith,
    type_ok h0 byte,
    flag_ok 0x40 0x80 false refl h0 byte,
    flag_ok 0x40 0x40 true refl h0 byte,
  )

-- The last packet's answer is the answer.
settle :
    (m : Run (Pushed × Parser))
    → (m >>= λ (out, p'). elim out [
      | nothing ↦ returns (nothing, p')
      | ready au ↦ returns (ready au, p')
      | invalid_payload ↦ returns (invalid_payload, p')
      | invalid_fu ↦ returns (invalid_fu, p')
    ])
      ≡ m
settle (returns (nothing, p)) = refl
settle (returns (ready au, p)) = refl
settle (returns (invalid_payload, p)) = refl
settle (returns (invalid_fu, p)) = refl
settle panics = refl
settle stuck = refl

rest_reassembled :
    (h0 h1 : ℕ) (p : Parser) (mids : List (List ℕ)) (last : List ℕ)
    → h0 < 256
    → p.fu_active ≡ true
    → let whole = p.fu_buffer ++ concat mids last in
      push_all p (fu_rest h0 h1 mids last)
      ≡ handle_nalu (record p { fu_buffer = whole; fu_active = false }) whole
unfolding push_all
rest_reassembled h0 h1 p [] last byte a = rw (fu_end h0 h1 byte p last a) (settle _)
rest_reassembled h0 h1 p (c ∷ cs) last byte a = rw (fu_middle h0 h1 byte p c a) (
    rest_reassembled h0 h1 (record p { fu_buffer = p.fu_buffer ++ c }) cs last byte a
    ∙ ap (λ l. handle_nalu (record p { fu_buffer = l; fu_active = false }) l)
        (append_assoc p.fu_buffer c (concat cs last)))

-- The fragments of a NALU, cut into two chunks or more in any way, make the parser handle exactly that
-- NALU, from any state, also with an unfinished fragment before.
pub fu_reassembles :
    (h0 h1 : ℕ) (p : Parser) (first : List ℕ) (mids : List (List ℕ)) (last : List ℕ)
    → h0 < 256
    → let nalu = h0 ∷ h1 ∷ (first ++ concat mids last) in
      push_all p (fu_payload 0x80 h0 h1 first ∷ fu_rest h0 h1 mids last)
      ≡ handle_nalu (record p { fu_buffer = nalu; fu_active = false }) nalu
fu_reassembles h0 h1 p first mids last byte =
    start_step
    ∙ rest_reassembled h0 h1 (record p { fu_buffer = h0 ∷ h1 ∷ first; fu_active = true }) mids last
        byte refl
  where
    start_step :
        push_all p (fu_payload 0x80 h0 h1 first ∷ fu_rest h0 h1 mids last)
        ≡ push_all
            (record p { fu_buffer = h0 ∷ h1 ∷ first; fu_active = true })
            (fu_rest h0 h1 mids last)
    start_step = unfold push_all in rw (fu_start h0 h1 byte p first)
