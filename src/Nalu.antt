-- ===== src/Nalu.antt =====
-- av/codec/parser/parser.go: NAL units framed as Annex B (start codes) or AVCC (length prefixes), and
-- the converters of av/codec/h264parser/convert.go and av/codec/h265parser/convert.go.
-- A byte slice is the list of its bytes. A loop that counts an index up to `len(b)` is a recursion on
-- the bytes from that index on; a loop that jumps ahead takes fuel, and `none` is fuel run out.
pub mod Avcc
pub mod AnnexB
pub mod Detect
pub mod Ranges
pub mod Total
pub mod Convert
mod Tests
use vrtc_sdk.Prelude.{ℕ, zero, suc, ◌+◌, ◌-◌, ◌*◌, ◌/◌, ◌%◌, ◌^◌, Bool, true, false, ◌&&◌}
use vrtc_sdk.Prelude.{Option, none, some, List, [], ◌∷◌, ◌++◌, ltb, leb, ◌==◌, if◌then◌else◌}
use vrtc_sdk.Prelude.{length, get_or, take, drop, ◌>>=◌}
use vrtc_sdk.Pio.{u32_be, be32}

pub data NaluAvccOrAnnexb : Type 0 where
  nalu_raw nalu_avcc nalu_annexb : NaluAvccOrAnnexb

-- `StartCode4`.
abbrev pub start_code4 : List ℕ → List ℕ
start_code4 r = 0 ∷ 0 ∷ 0 ∷ 1 ∷ r

-- `b[i] == v`, at an index that the guard before it has checked.
abbrev pub byte_is : List ℕ → ℕ → ℕ → Bool
byte_is b i v = get_or b i 0 == v

abbrev pub is_code4 : List ℕ → Bool
is_code4 b =
    leb 4 (length b) && (byte_is b 0 0 && (byte_is b 1 0 && (byte_is b 2 0 && byte_is b 3 1)))

abbrev pub is_code3 : List ℕ → Bool
is_code3 b = leb 3 (length b) && (byte_is b 0 0 && (byte_is b 1 0 && byte_is b 2 1))

pub len_start_code : List ℕ → ℕ
len_start_code data' = if is_code4 data' then 4 else if is_code3 data' then 3 else 0

pub has_annexb_start_code : List ℕ → Bool
unfolding len_start_code
has_annexb_start_code data' = ltb 0 (len_start_code data')

-- `binary.BigEndian.Uint32` of the first four bytes.
pub read_nalu_length : List ℕ → ℕ
read_nalu_length (a ∷ b ∷ c ∷ d ∷ r) = a * 2 ^ 24 + b * 2 ^ 16 + c * 2 ^ 8 + d
read_nalu_length _ = 0

pub is_annexb_or_avcc : List ℕ → NaluAvccOrAnnexb
unfolding read_nalu_length
is_annexb_or_avcc b =
    let n = read_nalu_length (take 4 b) in
    if ltb (length b) 4
    then nalu_raw
    else if is_code4 b
    then nalu_annexb
    else if ltb 0 n && leb n (length b - 4)
    then nalu_avcc
    else if is_code3 b
    then nalu_annexb
    else nalu_raw

-- The first loop of `SplitNALUs`: the positions of the start codes. The list is `b[i:]`, and `skip`
-- counts the bytes of a start code that are still to be passed over.
pub nalu_indices : List ℕ → ℕ → ℕ → List ℕ
nalu_indices [] i skip = []
nalu_indices (x ∷ r) i (suc k) = nalu_indices r (i + 1) k
nalu_indices (x ∷ r) i zero =
    let sc_len = if is_code4 (x ∷ r) then 4 else if is_code3 (x ∷ r) then 3 else 0 in
    let rest = nalu_indices r (i + 1) (sc_len - 1) in if ltb 0 sc_len then i ∷ rest else rest

-- `b[start:end]`, for `start <= end <= len(b)`.
abbrev pub slice : List ℕ → ℕ → ℕ → List ℕ
slice b start end = take (end - start) (drop start b)

-- The same where no guard is relied on: `none` is the panic of a range that does not fit a slice whose
-- capacity is its length.
abbrev pub checked_slice : List ℕ → ℕ → ℕ → Option (List ℕ)
checked_slice b start end =
    if leb start end && leb end (length b) then some (slice b start end) else none

-- The second loop of `SplitNALUs`, over the positions found: a unit runs to the next start code.
pub extract_nalus : List ℕ → List ℕ → List (List ℕ)
extract_nalus b [] = []
extract_nalus b (start ∷ next) =
    let end : ℕ = elim next [ [] ↦ length b | n ∷ _ ↦ n ] in
    let nalu = slice b start end in
    let offset = len_start_code nalu in
    let rest = extract_nalus b next in
    if leb (length nalu) offset
    then rest
    else if ltb 0 (length (drop offset nalu))
    then drop offset nalu ∷ rest
    else rest

-- The AVCC loop of `SplitNALUs`: the units found and the bytes left over.
pub avcc_loop : ℕ → ℕ → List ℕ → List (List ℕ) → Option (List (List ℕ) × List ℕ)
avcc_loop zero val4 b nalus = none
avcc_loop (suc fuel) val4 b nalus =
    let nalus' = nalus ++ (take val4 b ∷ []) in
    let b' = drop val4 b in
    let again = u32_be b' >>= λ next.
    let b'' = drop 4 b' in
    let rest = avcc_loop fuel next b'' nalus' in
    if ltb (length b'' % 2 ^ 32) next then some (nalus', b'') else rest in
    if leb val4 (length b % 2 ^ 32)
    then (if ltb (length b') 4 then some (nalus', b') else again)
    else some (nalus, b)

abbrev pub Split : Type 0
Split = List (List ℕ) × NaluAvccOrAnnexb

pub split_nalus : List ℕ → Option Split
split_nalus b = elim (is_annexb_or_avcc b) [
  | nalu_annexb ↦ elim (nalu_indices b 0 0) [
    | [] ↦ some (b ∷ [], nalu_raw)
    | i ∷ is ↦ some (extract_nalus b (i ∷ is), nalu_annexb)
  ]
  | nalu_avcc ↦ u32_be b >>= λ val4. avcc_loop (length b) val4 (drop 4 b) [] >>= λ found.
      if length found.1 == 0 then some (found.0, nalu_avcc) else some (b ∷ [], nalu_raw)
  | nalu_raw ↦ some (b ∷ [], nalu_raw)
]

-- `for i := start; i+3 < len(data); i++`: the first start code at or after `i`. The list is `data[i:]`.
pub find_code : List ℕ → ℕ → Option ℕ
unfolding has_annexb_start_code
find_code [] i = none
find_code (x ∷ r) i =
    let rest = find_code r (i + 1) in
    if ltb 3 (length (x ∷ r))
    then (if has_annexb_start_code (x ∷ r) then some i else rest)
    else none

-- `none` is the pair of -1.
pub find_next_annexb_nal_unit : List ℕ → ℕ → Option (ℕ × ℕ)
unfolding find_code len_start_code
find_next_annexb_nal_unit b start = find_code (drop start b) start >>= λ i.
    let nal_start = i + len_start_code (drop i b) in
    elim (find_code (drop nal_start b) nal_start) [
      | none ↦ some (nal_start, length b)
      | some nal_end ↦ some (nal_start, nal_end)
    ]

pub annexb_loop : ℕ → List ℕ → ℕ → List ℕ → Option (List ℕ)
annexb_loop zero b offset output = none
annexb_loop (suc fuel) b offset output =
    let more : Option (List ℕ) = elim (find_next_annexb_nal_unit b offset) [
      | none ↦ some output
      | some (start, end) ↦
          let nalu = slice b start end in
          annexb_loop fuel b end (output ++ (be32 (length nalu % 2 ^ 32) nalu))
    ] in
    if ltb offset (length b) then more else some output

-- Each round passes a start code, so `len(data)` rounds and one to stop are enough.
pub annexb_to_avcc : List ℕ → Option (List ℕ)
annexb_to_avcc b = annexb_loop (suc (length b)) b 0 []

-- A unit that does not fit is `errInvalidNALULength`; `panic` is a slice expression out of range, and
-- `stuck` is fuel run out.
pub data Converted : Type 0 where
  output : List ℕ → Converted
  invalid_nalu_length panic stuck : Converted

pub avcc_to_annexb_loop : ℕ → List ℕ → ℕ → List ℕ → Converted
avcc_to_annexb_loop zero b offset out = stuck
avcc_to_annexb_loop (suc fuel) b offset out =
    let start = offset + 4 in
    let more = elim (checked_slice b offset (offset + 4)) as (λ _. Converted) [
      | none ↦ panic
      | some prefix ↦
          let end = start + read_nalu_length prefix in
          let rest = elim (checked_slice b start end) as (λ _. Converted) [
            | none ↦ panic
            | some nalu ↦ avcc_to_annexb_loop fuel b end (out ++ start_code4 nalu)
          ] in
          if ltb (length b) end then invalid_nalu_length else rest
    ] in
    if leb (offset + 4) (length b) then more else output out

pub avcc_to_annexb : List ℕ → Converted
avcc_to_annexb b = avcc_to_annexb_loop (suc (length b)) b 0 []

-- convert.go `AnnexBToAVCC`: units to one AVCC slice.
pub nalus_to_avcc : List (List ℕ) → List ℕ
nalus_to_avcc [] = []
nalus_to_avcc (nalu ∷ nalus) = be32 (length nalu % 2 ^ 32) nalu ++ nalus_to_avcc nalus

-- What `AVCCToAnnexB` of convert.go ends with: its units, or an index or slice expression out of range,
-- or fuel run out.
pub data Units : Type 0 where
  units : List (List ℕ) → Units
  units_panic units_stuck : Units

-- convert.go `AVCCToAnnexB`: an AVCC slice to its units. The list is `avcc[i:]`.
pub avcc_units : ℕ → List ℕ → List (List ℕ) → Units
avcc_units zero avcc nalus = units_stuck
avcc_units (suc fuel) avcc nalus =
    let more = elim (u32_be avcc) as (λ _. Units) [
      | none ↦ units_panic
      | some size ↦
          let r = drop 4 avcc in
          let rest = elim (checked_slice r 0 size) as (λ _. Units) [
            | none ↦ units_panic
            | some nalu ↦ avcc_units fuel (drop size r) (nalus ++ (nalu ∷ []))
          ] in
          if ltb (length r) size then units nalus else rest
    ] in
    if leb 4 (length avcc) then more else units nalus

pub avcc_to_nalus : List ℕ → Units
avcc_to_nalus avcc = avcc_units (suc (length avcc)) avcc []

-- `ParameterSetsAnnexB`.
pub parameter_sets_annexb : List ℕ → List ℕ → List ℕ
parameter_sets_annexb sps pps = start_code4 sps ++ start_code4 pps
