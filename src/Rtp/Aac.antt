-- ===== src/Rtp/Aac.antt =====
-- av/format/rtsp/aac_rtp_decoder.go: AAC access units out of RTP packets.
-- `strconv.Atoi` enters as its answers for the three parameters. An int is 64 bits wide; a size that has
-- its top bit set is negative.
pub mod Cuts
mod Tests
use vrtc_sdk.Prelude.{
  ℕ, zero, suc, ◌+◌, ◌-◌, ◌*◌, ◌/◌, ◌%◌, ◌^◌, Bool, true, false, Option, none, some, List, [], ◌∷◌,
  ◌++◌,
}
use vrtc_sdk.Prelude.{ltb, leb, ◌==◌, if◌then◌else◌, length, take, drop, get_or}
use vrtc_sdk.Prelude.Int.{ℤ, pos, negsuc}

pub data Error : Type 0 where
  invalid_sizelength invalid_indexlength invalid_indexdeltalength : Error
  payload_too_short headers_truncated index_bits_exceed_header_length : Error
  payload_truncated bit_reader_overflow : Error
  -- A slice out of range, and the loop of the model out of fuel.
  panic stuck : Error

pub data Result {ℓ} (A : Type ℓ) : Type ℓ where
  ok : A → Result A
  err : Error → Result A

pub record Decoder : Type 0 where
  pub size_length : ℕ
  pub index_length : ℕ
  pub index_delta_length : ℕ

-- A parameter, from `least` on.
pub parameter : Option ℤ → ℕ → Error → Result ℕ
parameter none least e = err e
parameter (some (negsuc n)) least e = err e
parameter (some (pos n)) least e = if ltb n least then err e else ok n

pub new_decoder : Option ℤ → Option ℤ → Option ℤ → Result Decoder
new_decoder size index delta = elim (parameter size 1 invalid_sizelength) [
  | err e ↦ err e
  | ok s ↦ elim (parameter index 0 invalid_indexlength) [
    | err e ↦ err e
    | ok i ↦ elim (parameter delta 0 invalid_indexdeltalength) [
      | err e ↦ err e
      | ok d ↦ ok (record { size_length = s; index_length = i; index_delta_length = d })
    ]
  ]
]

-- The `n` bits from bit `at` on, into `v`.
pub read_loop : List ℕ → ℕ → ℕ → ℕ → ℕ
read_loop header at v zero = v
read_loop header at v (suc n) =
    let bit = get_or header (at / 8) 0 / 2 ^ (7 - at % 8) % 2 in
    read_loop header (at + 1) ((v * 2 + bit) % 2 ^ 64) n

-- `readBits`, with the position after it.
pub read_bits : List ℕ → ℕ → ℕ → Result (ℕ × ℕ)
read_bits header at n =
    if n == 0
    then ok (0, at)
    else if ltb (length header * 8) (at + n)
    then err bit_reader_overflow
    else ok (read_loop header at 0 n, at + n)

-- The loop over the AU headers; `index` is the length of the index field of the next header.
pub sizes_loop : ℕ → Decoder → List ℕ → ℕ → ℕ → ℕ → List ℕ → Result (List ℕ)
sizes_loop zero d header at remaining index sizes = err stuck
sizes_loop (suc fuel) d header at remaining index sizes =
    let left = remaining - d.size_length in
    elim (read_bits header at d.size_length) [
      | err e ↦ if remaining == 0 then ok sizes else err e
      | ok (size, at1) ↦
          let exceeds = if ltb remaining d.size_length then true else ltb left index in
          elim (read_bits header at1 index) [
            | err e ↦
                if remaining == 0
                then ok sizes
                else if exceeds
                then err index_bits_exceed_header_length
                else err e
            | ok (skipped, at2) ↦
                let rest =
                  sizes_loop fuel d header at2 (left - index) d.index_delta_length
                    (sizes ++ (size ∷ [])) in
                if remaining == 0
                then ok sizes
                else if exceeds
                then err index_bits_exceed_header_length
                else rest
          ]
    ]

-- The loop that cuts the access units out of the payload.
pub cut_loop : List ℕ → ℕ → List ℕ → Result (List (List ℕ))
cut_loop body offset [] = ok []
cut_loop body offset (size ∷ sizes) =
    let rest = cut_loop body (offset + size) sizes in
    if leb (2 ^ 63) size
    then err payload_truncated
    else if leb (2 ^ 63) (offset + size)
    then err panic
    else if ltb (length body) (offset + size)
    then err payload_truncated
    else elim rest [ err e ↦ err e | ok aus ↦ ok (take size (drop offset body) ∷ aus) ]

-- The payload after the AU headers.
pub body_of : List ℕ → List ℕ
body_of payload =
    let bits = get_or payload 0 0 * 256 + get_or payload 1 0 in drop (2 + (bits + 7) / 8) payload

pub decode : Decoder → List ℕ → Result (List (List ℕ))
decode d payload =
    let bits = get_or payload 0 0 * 256 + get_or payload 1 0 in
    let bytes = (bits + 7) / 8 in
    if ltb (length payload) 2
    then err payload_too_short
    else if bits == 0
    then ok []
    else if ltb (length payload) (2 + bytes)
    then err headers_truncated
    else elim (sizes_loop (suc bits) d (take bytes (drop 2 payload)) 0 bits d.index_length []) [
      | err e ↦ err e
      | ok sizes ↦ cut_loop (body_of payload) 0 sizes
    ]
