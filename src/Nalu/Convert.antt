-- ===== src/Nalu/Convert.antt =====
-- `AVCCToAnnexB` and `AnnexBToAVCC` of av/codec/parser on well-framed slices.
use vrtc_sdk.Prelude.{ℕ, zero, suc, ◌+◌, ◌-◌, ◌%◌, ◌^◌, ◌<◌, ◌≡◌, refl, ap, ◌∙◌, arith}
use vrtc_sdk.Prelude.{List, [], ◌∷◌, ◌++◌, append_assoc, append-nil, length, drop, All}
use vrtc_sdk.Prelude.{length-append, take-length_append, drop-length_append, drop-add}
use vrtc_sdk.Pio.{be32}
use vrtc_sdk.Nalu.Detect.{read_nalu_length-be32}
use vrtc_sdk.Nalu.Avcc.{Fits, length-le-nalus_to_avcc}
use vrtc_sdk.Nalu.{avcc_to_annexb, avcc_to_annexb_loop, start_code4, output, nalus_to_avcc}
use vrtc_sdk.Nalu.{slice}

-- The Annex B stream of a list of units: each one behind a 4-byte start code.
abbrev pub annexb_stream : List (List ℕ) → List ℕ
annexb_stream [] = []
annexb_stream (n ∷ ns) = start_code4 (n ++ annexb_stream ns)

-- One round over the unit `n` at `offset`.
to_annexb_step :
    (f : ℕ) (b : List ℕ) (offset : ℕ) (n r out : List ℕ)
    → Fits n
    → drop offset b ≡ be32 (length n) (n ++ r)
    → length b ≡ offset + 4 + length n + length r
    → avcc_to_annexb_loop (suc f) b offset out
      ≡ avcc_to_annexb_loop f b (offset + 4 + length n) (out ++ start_code4 n)
unfolding avcc_to_annexb_loop
to_annexb_step f b offset n r out h e k =
    ground (arith, four, body, read_nalu_length-be32 (length n) [] h)
  where
    four : slice b offset (offset + 4) ≡ be32 (length n) []
    four = let d : offset + 4 - offset ≡ 4 = omega arith in rw (d, e)

    body : slice b (offset + 4) (offset + 4 + length n) ≡ n
    body =
        let d : offset + 4 + length n - (offset + 4) ≡ length n = omega arith in
        rw (d, drop-add offset 4 b, e) (take-length_append n r)

to_annexb_units :
    (f : ℕ) (b : List ℕ) (offset : ℕ) (ns : List (List ℕ)) (out : List ℕ)
    → length ns < f
    → All Fits ns
    → drop offset b ≡ nalus_to_avcc ns
    → length b ≡ offset + length (nalus_to_avcc ns)
    → avcc_to_annexb_loop f b offset out ≡ output (out ++ annexb_stream ns)
unfolding nalus_to_avcc
to_annexb_units zero b offset ns out h a e k = absurd (omega arith)
to_annexb_units (suc f) b offset [] out h a e k =
    rw append-nil (unfold avcc_to_annexb_loop in ground arith)
to_annexb_units (suc f) b offset (n ∷ ns) out h a e k =
    to_annexb_step f b offset n r out a.0 framed size
    ∙ to_annexb_units f b (offset + 4 + length n) ns (out ++ start_code4 n) (omega arith) a.1 after
        size
    ∙ ap output (append_assoc out (start_code4 n) (annexb_stream ns))
  where
    r : List ℕ
    r = nalus_to_avcc ns

    small : length n % 2 ^ 32 ≡ length n
    small = omega (arith, a)

    framed : drop offset b ≡ be32 (length n) (n ++ r)
    framed = rw small at e

    size : length b ≡ offset + 4 + length n + length r
    size = omega (arith, length-append n r)

    after : drop (offset + 4 + length n) b ≡ r
    after =
        rw (drop-add (offset + 4) (length n) b, drop-add offset 4 b, framed)
          (drop-length_append n r)

-- `AVCCToAnnexB` turns every slice that `AnnexBToAVCC` of convert.go writes, for units whose length
-- fits the prefix, into the Annex B stream of the same units: no error, and the fuel is enough.
pub avcc_to_annexb-nalus_to_avcc :
    (ns : List (List ℕ))
    → All Fits ns
    → avcc_to_annexb (nalus_to_avcc ns) ≡ output (annexb_stream ns)
unfolding avcc_to_annexb
avcc_to_annexb-nalus_to_avcc ns a =
    to_annexb_units _ (nalus_to_avcc ns) 0 ns [] (omega (arith, length-le-nalus_to_avcc ns)) a refl
      (omega arith)
