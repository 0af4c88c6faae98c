-- ===== src/Rtp/Aac/Cuts.antt =====
-- What the AAC depacketizer returns.
use vrtc_sdk.Prelude.{
  ℕ, zero, suc, ◌+◌, ◌-◌, ◌*◌, ◌/◌, ◌≤◌, ◌<◌, ◌^◌, ◌≡◌, refl, ap, ◌∙◌, arith, ◌⊎◌, inl, inr, Bool,
  true, false, List, [], ◌∷◌, ◌++◌, append_assoc,
}
use mathlib.Core.Path.{subst}
use vrtc_sdk.Prelude.{
  ltb, leb, ◌==◌, if◌then◌else◌, length, take, drop, get_or, Bool-cases, drop-add, take-append-drop,
}
use vrtc_sdk.Rtp.Aac.{
  Decoder, Result, ok, err, Error, stuck, index_bits_exceed_header_length, read_bits, sizes_loop,
  cut_loop, body_of, decode,
}

pub flatten : List (List ℕ) → List ℕ
flatten [] = []
flatten (a ∷ aus) = a ++ flatten aus

-- The access units are consecutive pieces from the start of `body`, or there is an error that is not the
-- model's own.
abbrev pub Cuts : List ℕ → Result (List (List ℕ)) → Type 0
Cuts body (err e) = ¬ (e ≡ stuck)
Cuts body (ok aus) = (rest : List ℕ) × (flatten aus ++ rest ≡ body)

next-Cuts :
    (body : List ℕ) (offset size : ℕ) (r : Result (List (List ℕ)))
    → Cuts (drop (offset + size) body) r
    → Cuts (drop offset body) (elim r as (λ _. Result (List (List ℕ))) [
      | err e ↦ err e
      | ok aus ↦ ok (take size (drop offset body) ∷ aus)
    ])
unfolding flatten
next-Cuts body offset size (err e) h = h
next-Cuts body offset size (ok aus) (rest, h) = (
  rest,
  append_assoc (take size (drop offset body)) (flatten aus) rest
      ∙ ap (λ l. take size (drop offset body) ++ l) (h ∙ drop-add offset size body)
      ∙ take-append-drop size (drop offset body),
)

cut_loop-Cuts :
    (body : List ℕ) (offset : ℕ) (sizes : List ℕ)
    → Cuts (drop offset body) (cut_loop body offset sizes)
unfolding cut_loop flatten
cut_loop-Cuts body offset [] = (drop offset body, refl)
cut_loop-Cuts body offset (size ∷ sizes) =
    let rest = cut_loop-Cuts body (offset + size) sizes in
    elim (Bool-cases (leb (2 ^ 63) size)) [
      | inl a ↦ rw a (λ e. cc)
      | inr a ↦ elim (Bool-cases (leb (2 ^ 63) (offset + size))) [
        | inl b ↦ rw (a, b) (λ e. cc)
        | inr b ↦ elim (Bool-cases (ltb (length body) (offset + size))) [
          | inl c ↦ rw (a, b, c) (λ e. cc)
          | inr c ↦
              rw (a, b, c) (next-Cuts body offset size (cut_loop body (offset + size) sizes) rest)
        ]
      ]
    ]

Result-cases {ℓ} :
    {A : Type ℓ} (r : Result A) → ((a : A) × (r ≡ ok a)) ⊎ ((e : Error) × (r ≡ err e))
Result-cases (ok a) = inl (a, refl)
Result-cases (err e) = inr (e, refl)

abbrev Fine {ℓ} : {A : Type ℓ} → Result A → Type 0
Fine (ok a) = Unit
Fine (err e) = ¬ (e ≡ stuck)

read_bits-Fine : (header : List ℕ) (at n : ℕ) → Fine (read_bits header at n)
unfolding read_bits
read_bits-Fine header at n = elim (Bool-cases (n == 0)) [
  | inl z ↦ rw z tt
  | inr z ↦ elim (Bool-cases (ltb (length header * 8) (at + n))) [
    | inl o ↦ rw (z, o) (λ e. cc)
    | inr o ↦ rw (z, o) tt
  ]
]

-- The two tests of the loop, before a result that is fine.
tests-Fine :
    (done exceeds : Bool) (sizes : List ℕ) (r : Result (List ℕ))
    → (done ≡ false → Fine r)
    → Fine (if done then ok sizes else if exceeds then err index_bits_exceed_header_length else r)
tests-Fine true x sizes r h = tt
tests-Fine false true sizes r h = λ e. cc
tests-Fine false false sizes r h = h refl

-- The loop over the headers has enough fuel.
sizes_loop-Fine :
    (fuel : ℕ) (d : Decoder) (header : List ℕ) (at remaining index : ℕ) (sizes : List ℕ)
    → 1 ≤ d.size_length
    → remaining < fuel
    → Fine (sizes_loop fuel d header at remaining index sizes)
unfolding sizes_loop
sizes_loop-Fine zero d header at remaining index sizes s l = absurd (omega arith)
sizes_loop-Fine (suc fuel) d header at remaining index sizes s l =
    let left = remaining - d.size_length in
    let exceeds = if ltb remaining d.size_length then true else ltb left index in
    elim (Result-cases (read_bits header at d.size_length)) [
      | inr (e, q) ↦
          rw (q, sizes_loop)
            (tests-Fine (remaining == 0) false sizes (err e)
              (λ z. subst Fine q (read_bits-Fine header at d.size_length)))
      | inl ((size, at1), q) ↦ elim (Result-cases (read_bits header at1 index)) [
        | inr (e, r) ↦
            rw (q, sizes_loop, r)
              (tests-Fine (remaining == 0) exceeds sizes (err e)
                (λ z. subst Fine r (read_bits-Fine header at1 index)))
        | inl ((skipped, at2), r) ↦
            rw (q, sizes_loop, r)
              (tests-Fine (remaining == 0) exceeds sizes
                (sizes_loop fuel d header at2 (left - index) d.index_delta_length
                  (sizes ++ (size ∷ [])))
                (λ z.
                  sizes_loop-Fine fuel d header at2 (left - index) d.index_delta_length
                    (sizes ++ (size ∷ [])) s (ground arith)))
      ]
    ]

decoded-Cuts :
    (body : List ℕ) (r : Result (List ℕ))
    → Fine r
    → Cuts body (elim r as (λ _. Result (List (List ℕ))) [
      | err e ↦ err e
      | ok sizes ↦ cut_loop body 0 sizes
    ])
decoded-Cuts body (err e) f = f
decoded-Cuts body (ok sizes) f = cut_loop-Cuts body 0 sizes

-- For a decoder whose sizes are at least one bit long, decoding ends on every payload, and the access
-- units that it returns are consecutive pieces of what follows the AU headers, from its start.
pub decode-Cuts :
    (d : Decoder) (payload : List ℕ) → 1 ≤ d.size_length → Cuts (body_of payload) (decode d payload)
unfolding decode flatten
decode-Cuts d payload s =
    let bits = get_or payload 0 0 * 256 + get_or payload 1 0 in
    let bytes = (bits + 7) / 8 in
    elim (Bool-cases (ltb (length payload) 2)) [
      | inl a ↦ rw a (λ e. cc)
      | inr a ↦ elim (Bool-cases (bits == 0)) [
        | inl b ↦ rw (a, b) (body_of payload, refl)
        | inr b ↦ elim (Bool-cases (ltb (length payload) (2 + bytes))) [
          | inl c ↦ rw (a, b, c) (λ e. cc)
          | inr c ↦
              rw (a, b, c)
                (decoded-Cuts (body_of payload)
                  (sizes_loop (suc bits) d (take bytes (drop 2 payload)) 0 bits d.index_length [])
                  (sizes_loop-Fine (suc bits) d (take bytes (drop 2 payload)) 0 bits d.index_length
                    [] s (omega arith)))
        ]
      ]
    ]
