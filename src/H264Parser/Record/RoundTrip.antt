-- ===== src/H264Parser/Record/RoundTrip.antt =====
-- A marshalled avcC record, unmarshalled.
use vrtc_sdk.Prelude.{
  ℕ, suc, ◌%◌, ◌^◌, ◌<◌, ◌≡◌, refl, ap, sym, ◌∙◌, false, some, List, [], ◌∷◌, ◌++◌, ltb, length,
  bit_or, arith, All, length-append, take-length_append, drop-length_append,
}
use vrtc_sdk.Prelude.Bits.{or_low}
use vrtc_sdk.Prelude.Endian.{word16}
use vrtc_sdk.H264Parser.Record.{
  AvcDecoderConfRecord, marshal, marshal_units, unmarshal, unmarshal_units, unmarshal_pps,
}

-- A parameter set whose length has a field for it.
abbrev pub FitsSet : List ℕ → Type 0
FitsSet u = length u < 2 ^ 16

unit_step :
    (n w1 w0 : ℕ) (u r : List ℕ) (us : List (List ℕ)) (rest : List ℕ)
    → word16 w1 w0 ≡ length u
    → unmarshal_units n r ≡ some (us, rest)
    → unmarshal_units (suc n) (w1 ∷ w0 ∷ (u ++ r)) ≡ some (u ∷ us, rest)
unfolding unmarshal_units
unit_step n w1 w0 u r us rest e h =
    let whole : ltb (length (u ++ r)) (length u) ≡ false = ground (arith, length-append u r) in
    rw (e, whole, drop-length_append u r, h, take-length_append u r)

unmarshal_units-marshal_units :
    (us : List (List ℕ)) (r : List ℕ)
    → All FitsSet us
    → unmarshal_units (length us) (marshal_units us r) ≡ some (us, r)
unfolding marshal_units
unmarshal_units-marshal_units [] r f = unfold unmarshal_units in refl
unmarshal_units-marshal_units (u ∷ us) r f =
    unit_step (length us) _ _ u (marshal_units us r) us r (omega arith)
      (unmarshal_units-marshal_units us r f.1)

-- The records that have room for their counts and lengths.
abbrev pub FitsRecord : AvcDecoderConfRecord → Type 0
FitsRecord s =
    (s.length_size_minus_one < 4)
    × (length s.sps < 32)
    × (length s.pps < 256)
    × All FitsSet s.sps
    × All FitsSet s.pps

-- The head of a record, from its parts.
unmarshal_step :
    (profile compatibility level size count n lsm c : ℕ) (b rest r : List ℕ)
    (sps pps : List (List ℕ))
    → size % 2 ^ 2 ≡ lsm
    → count % 2 ^ 5 ≡ n
    → unmarshal_units n (c ∷ b) ≡ some (sps, rest)
    → unmarshal_pps rest ≡ some (pps, r)
    → unmarshal (1 ∷ profile ∷ compatibility ∷ level ∷ size ∷ count ∷ c ∷ b)
      ≡ some (
        record {
          avc_profile_indication = profile;
          profile_compatibility = compatibility;
          avc_level_indication = level;
          length_size_minus_one = lsm;
          sps = sps;
          pps = pps;
        },
        r,
      )
unfolding unmarshal
unmarshal_step profile compatibility level size count n lsm c b rest r sps pps a d h e =
    rw (a, d, h, e)

-- There is always a byte after the count of the sequence parameter sets.
marshal_units-cons :
    (us : List (List ℕ)) (x : ℕ) (r : List ℕ)
    → (c : ℕ) × (b : List ℕ) × (marshal_units us (x ∷ r) ≡ c ∷ b)
unfolding marshal_units
marshal_units-cons [] x r = (x, r, refl)
marshal_units-cons (u ∷ us) x r = (_, _, refl)

unmarshal_pps-marshal_units :
    (us : List (List ℕ))
    → All FitsSet us
    → length us < 256
    → unmarshal_pps (length us % 256 ∷ marshal_units us []) ≡ some (us, [])
unfolding unmarshal_pps
unmarshal_pps-marshal_units us f h =
    let e : length us % 256 ≡ length us = omega arith in
    rw e (unmarshal_units-marshal_units us [] f)

-- `Unmarshal` gives back a record that `Marshal` has written, and nothing is left over, if it has less
-- than 32 sequence and less than 256 picture parameter sets, each shorter than 65536 bytes, and a length
-- size of two bits.
pub unmarshal-marshal :
    (s : AvcDecoderConfRecord) → FitsRecord s → unmarshal (marshal s) ≡ some (s, [])
unfolding marshal
unmarshal-marshal s f =
    let rest = length s.pps % 256 ∷ marshal_units s.pps [] in
    let body = marshal_units-cons s.sps (length s.pps % 256) (marshal_units s.pps []) in
    let sps_count : bit_or 0xe0 (length s.sps % 256) % 2 ^ 5 ≡ length s.sps =
      omega (arith, or_low 5 7 (length s.sps % 256) (omega arith)) in
    let size : bit_or 0xfc s.length_size_minus_one % 2 ^ 2 ≡ s.length_size_minus_one =
      omega (arith, or_low 2 63 s.length_size_minus_one f.0) in
    ap
      (λ l. unmarshal (
        1
        ∷ s.avc_profile_indication
        ∷ s.profile_compatibility
        ∷ s.avc_level_indication
        ∷ bit_or 0xfc s.length_size_minus_one
        ∷ bit_or 0xe0 (length s.sps % 256)
        ∷ l))
      body.2
    ∙ unmarshal_step _ _ _ _ _ (length s.sps) s.length_size_minus_one body.0 body.1 rest [] s.sps
        s.pps size sps_count
        (ap (unmarshal_units (length s.sps)) (sym body.2)
          ∙ unmarshal_units-marshal_units s.sps rest f.3)
        (unmarshal_pps-marshal_units s.pps f.4 f.2)
