-- ===== src/Nalu/Avcc.antt =====
-- AVCC: the length-prefix encoders and the splitters.
use vrtc_sdk.Prelude.{ℕ, zero, suc, ◌+◌, ◌%◌, ◌^◌, ◌≤◌, ◌<◌, ◌≡◌, refl, ap, ◌∙◌, arith}
use vrtc_sdk.Prelude.{some, List, [], ◌∷◌, ◌++◌, append_assoc, append-nil, length, All}
use vrtc_sdk.Prelude.{length-append, take-length_append, drop-length_append}
use vrtc_sdk.Pio.{be32}
use vrtc_sdk.Pio.RoundTrip.{u32_be-be32}
use vrtc_sdk.Nalu.Detect.{is_annexb_or_avcc_prefix}
use vrtc_sdk.Nalu.{
  units, avcc_units, avcc_to_nalus, nalus_to_avcc, avcc_loop, split_nalus, nalu_avcc,
}

-- A unit whose length fits the prefix.
abbrev pub Fits : List ℕ → Type 0
Fits nalu = length nalu < 2 ^ 32

units_step :
    (f : ℕ) (n r : List ℕ) (acc : List (List ℕ))
    → Fits n
    → avcc_units (suc f) (be32 (length n) (n ++ r)) acc ≡ avcc_units f r (acc ++ (n ∷ []))
unfolding avcc_units
units_step f n r acc h = ground (
  arith,
  u32_be-be32 (length n) (n ++ r) h,
  take-length_append n r,
  drop-length_append n r,
  length-append n r,
)

loop_next :
    (f m : ℕ) (n r : List ℕ) (acc : List (List ℕ))
    → length n + 4 + length r < 2 ^ 32
    → m ≤ length r
    → avcc_loop (suc f) (length n) (n ++ be32 m r) acc ≡ avcc_loop f m r (acc ++ (n ∷ []))
unfolding avcc_loop
loop_next f m n r acc h k = ground (
  arith,
  u32_be-be32 m r (omega arith),
  take-length_append n (be32 m r),
  drop-length_append n (be32 m r),
  length-append n (be32 m r),
)

pub length-le-nalus_to_avcc : (nalus : List (List ℕ)) → length nalus ≤ length (nalus_to_avcc nalus)
unfolding nalus_to_avcc
length-le-nalus_to_avcc [] = omega arith
length-le-nalus_to_avcc (n ∷ ns) =
    omega (arith, length-append n (nalus_to_avcc ns), length-le-nalus_to_avcc ns)

units-nalus_to_avcc :
    (f : ℕ) (nalus acc : List (List ℕ))
    → length nalus < f
    → All Fits nalus
    → avcc_units f (nalus_to_avcc nalus) acc ≡ units (acc ++ nalus)
unfolding nalus_to_avcc
units-nalus_to_avcc zero nalus acc h a = absurd (omega arith)
units-nalus_to_avcc (suc f) [] acc h a = rw append-nil (unfold avcc_units in refl)
units-nalus_to_avcc (suc f) (n ∷ ns) acc h a =
    let small : length n % 2 ^ 32 ≡ length n = omega (arith, a) in
    rw small (
      units_step f n (nalus_to_avcc ns) acc a.0
      ∙ units-nalus_to_avcc f ns (acc ++ (n ∷ [])) (omega arith) a.1
      ∙ ap units (append_assoc acc (n ∷ []) ns))

-- `AVCCToAnnexB` of convert.go returns the units that `AnnexBToAVCC` was given, in order, for units
-- whose length fits the 32-bit prefix.
pub avcc_to_nalus-nalus_to_avcc :
    (nalus : List (List ℕ)) → All Fits nalus → avcc_to_nalus (nalus_to_avcc nalus) ≡ units nalus
unfolding avcc_to_nalus
avcc_to_nalus-nalus_to_avcc nalus a =
    units-nalus_to_avcc _ nalus [] (omega (arith, length-le-nalus_to_avcc nalus)) a

-- What may follow the last unit with the loop of `SplitNALUs` still using up all bytes.
abbrev Stops : List ℕ → Type 0
Stops t =
    (f : ℕ) (n : List ℕ) (acc : List (List ℕ))
    → length n + length t < 2 ^ 32
    → avcc_loop (suc f) (length n) (n ++ t) acc ≡ some (acc ++ (n ∷ []), [])

Stops-nil : Stops []
unfolding avcc_loop
Stops-nil f n acc h =
    rw append-nil (ground (arith, take-length_append n [], drop-length_append n [], append-nil n))

Stops-be32 : (m : ℕ) → 0 < m → m < 2 ^ 32 → Stops (be32 m [])
unfolding avcc_loop
Stops-be32 m pos h f n acc k = ground (
  arith,
  u32_be-be32 m [] h,
  take-length_append n (be32 m []),
  drop-length_append n (be32 m []),
  length-append n (be32 m []),
)

loop-nalus_to_avcc :
    (f : ℕ) (n : List ℕ) (ns acc : List (List ℕ)) (t : List ℕ)
    → Stops t
    → length ns < f
    → length n + length (nalus_to_avcc ns) + length t < 2 ^ 32
    → avcc_loop f (length n) (n ++ (nalus_to_avcc ns ++ t)) acc ≡ some (acc ++ (n ∷ ns), [])
unfolding nalus_to_avcc
loop-nalus_to_avcc zero n ns acc t s h k = absurd (omega arith)
loop-nalus_to_avcc (suc f) n [] acc t s h k = s f n acc (omega arith)
loop-nalus_to_avcc (suc f) n (m ∷ ms) acc t s h k =
    let small : length m % 2 ^ 32 ≡ length m = omega (arith, sizes) in
    rw (small, append_assoc m (nalus_to_avcc ms) t)
      (loop_next f (length m) n (m ++ (nalus_to_avcc ms ++ t)) acc (omega (arith, sizes))
          (omega (arith, sizes))
        ∙ loop-nalus_to_avcc f m ms (acc ++ (n ∷ [])) t s (omega arith) (omega (arith, sizes))
        ∙ ap (λ l. some (l, [])) (append_assoc acc (n ∷ []) (m ∷ ms)))
  where
    sizes :
        (length (m ++ nalus_to_avcc ms) ≡ length m + length (nalus_to_avcc ms))
        × (length (m ++ (nalus_to_avcc ms ++ t)) ≡ length m + length (nalus_to_avcc ms ++ t))
        × (length (nalus_to_avcc ms ++ t) ≡ length (nalus_to_avcc ms) + length t)
    sizes = (
      length-append m (nalus_to_avcc ms),
      length-append m (nalus_to_avcc ms ++ t),
      length-append (nalus_to_avcc ms) t,
    )

split_units :
    (n : List ℕ) (ns : List (List ℕ)) (t : List ℕ)
    → Stops t
    → 2 ≤ length n
    → length (nalus_to_avcc (n ∷ ns)) + length t < 2 ^ 32
    → split_nalus (nalus_to_avcc (n ∷ ns) ++ t) ≡ some (n ∷ ns, nalu_avcc)
unfolding nalus_to_avcc split_nalus
split_units n ns t s two fits =
    let small : length n % 2 ^ 32 ≡ length n = omega (arith, sizes) in
    rw (small, append_assoc n (nalus_to_avcc ns) t)
      (ground (
        arith,
        is_annexb_or_avcc_prefix (length n) b,
        u32_be-be32 (length n) b,
        loop-nalus_to_avcc (length (be32 (length n) b)) n ns [] t s,
        sizes,
      ))
  where
    b : List ℕ
    b = n ++ (nalus_to_avcc ns ++ t)

    sizes :
        (length (n ++ nalus_to_avcc ns) ≡ length n + length (nalus_to_avcc ns))
        × (length (n ++ (nalus_to_avcc ns ++ t)) ≡ length n + length (nalus_to_avcc ns ++ t))
        × (length (nalus_to_avcc ns ++ t) ≡ length (nalus_to_avcc ns) + length t)
        × (length ns ≤ length (nalus_to_avcc ns))
    sizes = (
      length-append n (nalus_to_avcc ns),
      length-append n (nalus_to_avcc ns ++ t),
      length-append (nalus_to_avcc ns) t,
      length-le-nalus_to_avcc ns,
    )

-- `SplitNALUs` returns the units that were framed by `AnnexBToAVCC` of convert.go, and recognises the
-- format, when the first unit has two bytes or more and the whole slice is shorter than 2 ^ 32 bytes.
pub split_nalus-nalus_to_avcc :
    (n : List ℕ) (ns : List (List ℕ))
    → 2 ≤ length n
    → length (nalus_to_avcc (n ∷ ns)) < 2 ^ 32
    → split_nalus (nalus_to_avcc (n ∷ ns)) ≡ some (n ∷ ns, nalu_avcc)
split_nalus-nalus_to_avcc n ns two fits =
    rw (append-nil) at (split_units n ns [] Stops-nil two (omega arith))

-- On the same slices with four more bytes, the prefix of a unit of `m > 0` bytes that is missing
-- whole, `SplitNALUs` gives the same answer: the truncation does not show.
pub split_nalus_dangling_prefix :
    (n : List ℕ) (ns : List (List ℕ)) (m : ℕ)
    → 2 ≤ length n
    → 0 < m
    → m < 2 ^ 32
    → length (nalus_to_avcc (n ∷ ns)) + 4 < 2 ^ 32
    → split_nalus (nalus_to_avcc (n ∷ ns) ++ be32 m []) ≡ some (n ∷ ns, nalu_avcc)
split_nalus_dangling_prefix n ns m two pos h fits =
    split_units n ns (be32 m []) (Stops-be32 m pos h) two fits
