-- ===== src/Fmp4/Esds.antt =====
-- av/format/fmp4/demuxer.go: how an esds is read; and `buildDescriptor` of muxer.go, which writes it.
mod Tests
use vrtc_sdk.Prelude.{
  ℕ, zero, suc, ◌+◌, ◌-◌, ◌*◌, ◌/◌, ◌%◌, ◌^◌, ◌≤◌, ◌<◌, ◌≡◌, refl, ap, sym, ◌∙◌, Bool, true, false,
  not, ◌||◌, Option, none, some, ◌>>=◌, List, [], ◌∷◌, ◌++◌, arith, bit_and, append-nil,
  append_assoc,
}
use vrtc_sdk.Prelude.{
  length, ◌==◌, ltb, if◌then◌else◌, take, drop, length-append, take-length_append,
  drop-length_append,
}
use vrtc_sdk.Prelude.Bits.{and_mask}
use vrtc_sdk.Prelude.Endian.{codes, put16, put24, put32}
use vrtc_sdk.Fmp4.Box.{make_box}
use vrtc_sdk.Fmp4.Init.{length_loop, build_descriptor, build_esds}

-- The length of `readDescriptorBody`: four bytes at most, of seven bits each.
unfoldable pub read_length : ℕ → ℕ → List ℕ → ℕ × List ℕ
read_length zero n r = (n, r)
read_length (suc k) n [] = (n, [])
read_length (suc k) n (b ∷ r) =
    let next = read_length k (n * 2 ^ 7 + b % 2 ^ 7) r in
    if b / 2 ^ 7 % 2 == 0 then (n * 2 ^ 7 + b % 2 ^ 7, r) else next

-- `readDescriptorBody`.
unfoldable pub read_descriptor_body : List ℕ → ℕ → Option (List ℕ)
unfolding read_length
read_descriptor_body (t ∷ b ∷ r) tag =
    let (n, body) = read_length 4 0 (b ∷ r) in
    if not (t == tag) || ltb (length body) n then none else some (take n body)
read_descriptor_body _ tag = none

-- The optional fields of an ES descriptor: two bytes, a counted text, and two bytes.
unfoldable pub skip_text : List ℕ → Option (List ℕ)
skip_text [] = none
skip_text (n ∷ r) = some (drop n r)

unfoldable pub skip_extensions : ℕ → List ℕ → Option (List ℕ)
unfolding skip_text
skip_extensions flags r =
    let after = if flags / 2 ^ 7 % 2 == 0 then r else drop 2 r in
    let text = if flags / 2 ^ 6 % 2 == 0 then some after else skip_text after in
    text >>= λ l. some (if flags / 2 ^ 5 % 2 == 0 then l else drop 2 l)

-- The end of `parseEsds`: the decoder configuration and in it the audio configuration.
unfoldable pub decoder_config : List ℕ → Option (List ℕ)
unfolding read_descriptor_body
decoder_config r = do
  dc ← read_descriptor_body r 4
  if ltb (length dc) 13 then none else read_descriptor_body (drop 13 dc) 5

-- `parseEsds`.
unfoldable pub es_descriptor : List ℕ → Option (List ℕ)
unfolding skip_extensions decoder_config
es_descriptor (i1 ∷ i0 ∷ flags ∷ r) = skip_extensions flags r >>= decoder_config
es_descriptor _ = none

unfoldable pub parse_esds : List ℕ → Option (List ℕ)
unfolding read_descriptor_body es_descriptor
parse_esds (version ∷ f2 ∷ f1 ∷ f0 ∷ r) = read_descriptor_body r 3 >>= es_descriptor
parse_esds _ = none

-- `channelLayoutFromCount`.
unfoldable pub channel_layout_from_count : ℕ → ℕ
channel_layout_from_count n =
    if n == 1 then 1 else if n == 2 then 6 else if ltb 15 n then 0xffff else 2 ^ n - 1

-- A short length is one byte.
length_loop_short : (fuel n : ℕ) → n < 128 → length_loop (suc fuel) n ≡ some (n ∷ [])
unfolding length_loop
length_loop_short fuel n h = ground arith

-- The loop goes on as soon as the low 21 bits are more than seven.
length_loop-none : (fuel n : ℕ) → 128 ≤ n % 2 ^ 21 → length_loop fuel n ≡ none
unfolding length_loop
length_loop-none zero n h = refl
length_loop-none (suc fuel) n h =
    let low : bit_and n 0x1fffff ≡ n % 2 ^ 21 = and_mask 21 n in
    ground (arith, length_loop-none fuel (n % 2 ^ 21))

build_descriptor_short :
    (fuel tag : ℕ) (p : List ℕ)
    → length p < 128
    → build_descriptor (suc fuel) tag p ≡ some (tag ∷ length p ∷ p)
unfolding build_descriptor
build_descriptor_short fuel tag p h = ground (arith, length_loop_short fuel (length p) h)

-- The loop of `buildDescriptor` does not end, whatever the fuel, on a payload whose length has 128 or
-- more in its low 21 bits, as one of 128 bytes.
pub build_descriptor-endless :
    (fuel tag : ℕ) (p : List ℕ) → 128 ≤ length p % 2 ^ 21 → build_descriptor fuel tag p ≡ none
unfolding build_descriptor
build_descriptor-endless fuel tag p h = ground (arith, length_loop-none fuel (length p) h)

read_length_short : (n : ℕ) (r : List ℕ) → n < 128 → read_length 4 0 (n ∷ r) ≡ (n, r)
unfolding read_length
read_length_short n r h = ground arith

-- A descriptor of less than 128 bytes, read with what comes after it.
read_descriptor_body_short :
    (tag : ℕ) (p r : List ℕ)
    → length p < 128
    → read_descriptor_body (tag ∷ length p ∷ (p ++ r)) tag ≡ some p
unfolding read_descriptor_body
read_descriptor_body_short tag p r h =
    ground
      (arith, read_length_short (length p) (p ++ r) h, length-append p r, take-length_append p r)

read_descriptor_body_whole :
    (tag : ℕ) (p : List ℕ) → length p < 128 → read_descriptor_body (tag ∷ length p ∷ p) tag ≡ some p
read_descriptor_body_whole tag p h =
    ap (λ l. read_descriptor_body (tag ∷ length p ∷ l) tag) (sym (append-nil p))
    ∙ read_descriptor_body_short tag p [] h

-- What `buildEsds` makes of a short configuration.
unfoldable dc_payload : List ℕ → List ℕ
dc_payload asc = 0x40 ∷ 0x15 ∷ put24 0 (put32 0 (put32 0 (5 ∷ length asc ∷ asc)))

unfoldable es_payload : List ℕ → List ℕ
unfolding dc_payload
es_payload asc = put16 1 (0 ∷ (4 ∷ length (dc_payload asc) ∷ dc_payload asc) ++ (6 ∷ 1 ∷ 2 ∷ []))

length-es_payload : (asc : List ℕ) → length (es_payload asc) ≡ 23 + length asc
unfolding es_payload
length-es_payload asc = omega (arith, length-append asc (6 ∷ 1 ∷ 2 ∷ []))

esds_step :
    (fuel : ℕ) (asc dc es : List ℕ)
    → build_descriptor (suc fuel) 5 asc ≡ some (5 ∷ length asc ∷ asc)
    → build_descriptor (suc fuel) 4 (dc_payload asc) ≡ some dc
    → build_descriptor (suc fuel) 6 (2 ∷ []) ≡ some (6 ∷ 1 ∷ 2 ∷ [])
    → build_descriptor (suc fuel) 3 (put16 1 (0 ∷ (dc ++ (6 ∷ 1 ∷ 2 ∷ [])))) ≡ some es
    → build_esds (suc fuel) asc ≡ some (make_box (codes "esds") (put32 0 es))
unfolding build_esds dc_payload
esds_step fuel asc dc es h k e f = ground arith

build_esds_short :
    (fuel : ℕ) (asc : List ℕ)
    → length asc < 105
    → build_esds (suc fuel) asc
      ≡ some (make_box (codes "esds") (put32 0 (3 ∷ length (es_payload asc) ∷ es_payload asc)))
unfolding es_payload
build_esds_short fuel asc h =
    esds_step fuel asc (4 ∷ length (dc_payload asc) ∷ dc_payload asc) _
      (build_descriptor_short fuel 5 asc (omega arith))
      (build_descriptor_short fuel 4 (dc_payload asc) (omega arith))
      (build_descriptor_short fuel 6 (2 ∷ []) (omega arith))
      (build_descriptor_short fuel 3 (es_payload asc) (omega (arith, length-es_payload asc)))

decoder_config-dc_payload :
    (asc r : List ℕ)
    → length asc < 105
    → decoder_config (4 ∷ length (dc_payload asc) ∷ (dc_payload asc ++ r)) ≡ some asc
unfolding decoder_config dc_payload
decoder_config-dc_payload asc r h = ground (
  arith,
  read_descriptor_body_short 4 (dc_payload asc) r (omega arith),
  read_descriptor_body_whole 5 asc (omega arith),
)

es_descriptor-es_payload :
    (asc : List ℕ) → length asc < 105 → es_descriptor (es_payload asc) ≡ some asc
unfolding es_descriptor es_payload skip_extensions
es_descriptor-es_payload asc h = decoder_config-dc_payload asc (6 ∷ 1 ∷ 2 ∷ []) h

-- `parseEsds` reads an audio configuration of less than 105 bytes back from the payload of the esds box
-- that `buildEsds` writes for it.
pub parse_esds-build_esds :
    (fuel : ℕ) (asc : List ℕ)
    → length asc < 105
    → (p : List ℕ) × (build_esds (suc fuel) asc ≡ some (make_box (codes "esds") p))
      × (parse_esds p ≡ some asc)
unfolding parse_esds
parse_esds-build_esds fuel asc h = (
  put32 0 (3 ∷ length (es_payload asc) ∷ es_payload asc),
  build_esds_short fuel asc h,
  ap (λ o. o >>= es_descriptor)
        (read_descriptor_body_whole 3 (es_payload asc) (omega (arith, length-es_payload asc)))
      ∙ es_descriptor-es_payload asc h,
)
