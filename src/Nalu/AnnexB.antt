-- ===== src/Nalu/AnnexB.antt =====
-- Start codes, and `AnnexBToAVCC` on a stream of units.
use vrtc_sdk.Prelude.{ℕ, zero, suc, ◌+◌, ◌-◌, ◌%◌, ◌^◌, ◌≤◌, ◌<◌, ◌≡◌, refl, ap, ◌∙◌, arith}
use vrtc_sdk.Prelude.{
  none, some, List, [], ◌∷◌, ◌++◌, append_assoc, append-nil, length, drop, All, ◌⊎◌, inl, inr,
}
use vrtc_sdk.Prelude.{length-append, take-length_append, drop-length_append, drop-add}
use vrtc_sdk.Pio.{be32}
use vrtc_sdk.Nalu.{
  annexb_to_avcc, annexb_loop, find_next_annexb_nal_unit, find_code, len_start_code, start_code4,
  nalus_to_avcc,
}
use vrtc_sdk.Nalu.{slice}
use vrtc_sdk.Nalu.Convert.{annexb_stream}

-- No start code begins inside the unit.
abbrev pub NoCode : List ℕ → Type 0
NoCode [] = Unit
NoCode (x ∷ r) = (len_start_code (x ∷ r) ≡ 0) × NoCode r

-- A start code behind the unit does not make one that begins inside it.
no_code_append :
    (x : ℕ) (r s : List ℕ)
    → len_start_code (x ∷ r) ≡ 0
    → len_start_code (x ∷ (r ++ start_code4 s)) ≡ 0
unfolding len_start_code
no_code_append x [] s h = ground arith
no_code_append x (y ∷ []) s h = ground arith
no_code_append x (y ∷ z ∷ []) s h = ground arith
no_code_append x (y ∷ z ∷ w ∷ r) s h = ground (arith, length-append r (start_code4 s))

pub find_code-append :
    (n s : List ℕ) (i : ℕ) → NoCode n → find_code (n ++ start_code4 s) i ≡ some (i + length n)
unfolding find_code len_start_code
find_code-append [] s i h = ground arith
find_code-append (x ∷ r) s i h = ground (
  arith,
  h,
  no_code_append x r s,
  length-append r (start_code4 s),
  find_code-append r s (i + 1) h.1,
)

pub find_code-none : (n : List ℕ) (i : ℕ) → NoCode n → find_code n i ≡ none
unfolding find_code len_start_code
find_code-none [] i h = refl
find_code-none (x ∷ r) i h = ground (arith, h, find_code-none r (i + 1) h.1)

-- Both scans of `FindNextAnnexBNALUnit` at a start code: the unit behind it, up to the next one.
next_unit :
    (b : List ℕ) (offset : ℕ) (n : List ℕ) (ns : List (List ℕ))
    → NoCode n
    → drop offset b ≡ start_code4 (n ++ annexb_stream ns)
    → length b ≡ offset + 4 + length n + length (annexb_stream ns)
    → find_next_annexb_nal_unit b offset ≡ some (offset + 4, offset + 4 + length n)
unfolding find_next_annexb_nal_unit
next_unit b offset n ns clean e k =
    ground (arith, first, at_code, behind ns (drop-add offset 4 b ∙ rest) k)
  where
    first : find_code (drop offset b) offset ≡ some offset
    first = rw e (find_code-append [] (n ++ annexb_stream ns) offset tt ∙ ap some (omega arith))

    at_code : len_start_code (drop offset b) ≡ 4
    at_code = rw e (unfold len_start_code in ground arith)

    rest : drop 4 (drop offset b) ≡ n ++ annexb_stream ns
    rest = rw e

    behind :
        (ms : List (List ℕ))
        → drop (offset + 4) b ≡ n ++ annexb_stream ms
        → length b ≡ offset + 4 + length n + length (annexb_stream ms)
        → (find_code (drop (offset + 4) b) (offset + 4) ≡ some (offset + 4 + length n))
          ⊎ ((find_code (drop (offset + 4) b) (offset + 4) ≡ none)
              × (length b ≡ offset + 4 + length n))
    behind [] d l = inr (rw (d, append-nil) (find_code-none n (offset + 4) clean), omega (arith, l))
    behind (m ∷ ms) d l = inl (rw d (find_code-append n (m ++ annexb_stream ms) (offset + 4) clean))

annexb_step :
    (f : ℕ) (b : List ℕ) (offset : ℕ) (n : List ℕ) (ns : List (List ℕ)) (out : List ℕ)
    → NoCode n
    → drop offset b ≡ start_code4 (n ++ annexb_stream ns)
    → length b ≡ offset + 4 + length n + length (annexb_stream ns)
    → annexb_loop (suc f) b offset out
      ≡ annexb_loop f b (offset + 4 + length n) (out ++ be32 (length n % 2 ^ 32) n)
unfolding annexb_loop
annexb_step f b offset n ns out clean e k = ground (arith, next_unit b offset n ns clean e k, unit)
  where
    unit : slice b (offset + 4) (offset + 4 + length n) ≡ n
    unit =
        let d : offset + 4 + length n - (offset + 4) ≡ length n = omega arith in
        rw (d, drop-add offset 4 b, e) (take-length_append n (annexb_stream ns))

annexb_units :
    (f : ℕ) (b : List ℕ) (offset : ℕ) (ns : List (List ℕ)) (out : List ℕ)
    → length ns < f
    → All NoCode ns
    → drop offset b ≡ annexb_stream ns
    → length b ≡ offset + length (annexb_stream ns)
    → annexb_loop f b offset out ≡ some (out ++ nalus_to_avcc ns)
annexb_units zero b offset ns out h a e k = absurd (omega arith)
annexb_units (suc f) b offset [] out h a e k =
    unfold annexb_loop nalus_to_avcc in rw append-nil (ground arith)
annexb_units (suc f) b offset (n ∷ ns) out h a e k =
    annexb_step f b offset n ns out a.0 e size
    ∙ annexb_units f b (offset + 4 + length n) ns (out ++ be32 (length n % 2 ^ 32) n) (omega arith)
        a.1 after size
    ∙ unfold nalus_to_avcc in
      ap some (append_assoc out (be32 (length n % 2 ^ 32) n) (nalus_to_avcc ns))
  where
    size : length b ≡ offset + 4 + length n + length (annexb_stream ns)
    size = omega (arith, k, length-append n (annexb_stream ns))

    after : drop (offset + 4 + length n) b ≡ annexb_stream ns
    after =
        rw (drop-add (offset + 4) (length n) b, drop-add offset 4 b, e)
          (drop-length_append n (annexb_stream ns))

length-le-annexb_stream : (ns : List (List ℕ)) → length ns ≤ length (annexb_stream ns)
length-le-annexb_stream [] = omega arith
length-le-annexb_stream (n ∷ ns) =
    omega (arith, length-append n (annexb_stream ns), length-le-annexb_stream ns)

-- `AnnexBToAVCC` turns a stream of units behind 4-byte start codes into what convert.go writes for the
-- same units, if no start code begins inside a unit; empty units and units that end in zeros included.
pub annexb_to_avcc-annexb_stream :
    (ns : List (List ℕ))
    → All NoCode ns
    → annexb_to_avcc (annexb_stream ns) ≡ some (nalus_to_avcc ns)
unfolding annexb_to_avcc
annexb_to_avcc-annexb_stream ns a =
    annexb_units _ (annexb_stream ns) 0 ns [] (omega (arith, length-le-annexb_stream ns)) a refl
      (omega arith)
