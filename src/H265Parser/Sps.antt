-- ===== src/H265Parser/Sps.antt =====
-- av/codec/h265parser/sps.go. The fields that no statement sets are left out.
use vrtc_sdk.Prelude.{
  ℕ, zero, suc, ◌+◌, ◌-◌, ◌*◌, not, ◌||◌, Option, none, some, ◌>>=◌, List, [], ◌∷◌, ◌==◌,
  if◌then◌else◌,
}
use vrtc_sdk.Bits.Golomb.{
  GolombBitReader, read_bit, read_bits, read_bits32, read_bits64, read_exponential_golomb_code,
}
use vrtc_sdk.H265Parser.Vui.{parse_vui}

-- The general profile, tier and level.
pub record Ptl : Type 0 where
  pub general_profile_space : ℕ
  pub general_tier_flag : ℕ
  pub general_profile_idc : ℕ
  pub general_profile_compatibility_flags : ℕ
  pub general_constraint_indicator_flags : ℕ
  pub general_level_idc : ℕ

-- `SPSInfo`.
pub record SpsInfo : Type 0 where
  pub ptl : Ptl
  pub num_temporal_layers : ℕ
  pub temporal_id_nested : ℕ
  pub chroma_format : ℕ
  pub width : ℕ
  pub height : ℕ
  pub bit_depth_luma_minus8 : ℕ
  pub bit_depth_chroma_minus8 : ℕ
  pub fps : ℕ

-- `nal2rbsp`.
unfoldable pub nal2rbsp : List ℕ → List ℕ
nal2rbsp [] = []
nal2rbsp (a ∷ []) = a ∷ []
nal2rbsp (a ∷ b ∷ []) = a ∷ b ∷ []
nal2rbsp (a ∷ b ∷ c ∷ r) =
    let skipped = nal2rbsp r in
    let kept = nal2rbsp (b ∷ c ∷ r) in
    if not (a == 0) || not (b == 0) || not (c == 3) then a ∷ kept else 0 ∷ 0 ∷ skipped

-- Reads whose values are not used.
unfoldable pub skip_times :
    (GolombBitReader → Option (ℕ × GolombBitReader)) → ℕ → GolombBitReader → Option GolombBitReader
skip_times f zero r = some r
skip_times f (suc n) r = f r >>= λ v. skip_times f n v.1

-- The flags of the sub-layers.
unfoldable pub layer_flags : ℕ → GolombBitReader → Option (List (ℕ × ℕ) × GolombBitReader)
unfolding read_bit
layer_flags zero r = some ([], r)
layer_flags (suc n) r = do
  profile ← read_bit r
  level ← read_bit profile.1
  later ← layer_flags n level.1
  some ((profile.0, level.0) ∷ later.0, later.1)

-- The profile and the level of a sub-layer.
unfoldable pub skip_profile : ℕ → GolombBitReader → Option GolombBitReader
unfolding skip_times read_bits32
skip_profile flag r =
    if flag == 0
    then some r
    else (skip_times (read_bits32 32) 2 r >>= λ s. skip_times (read_bits32 24) 1 s)

unfoldable pub skip_layers : List (ℕ × ℕ) → GolombBitReader → Option GolombBitReader
unfolding skip_profile skip_times read_bits
skip_layers [] r = some r
skip_layers ((profile, level) ∷ flags) r = do
  s ← skip_profile profile r
  t ← if level == 0 then some s else skip_times (read_bits 8) 1 s
  skip_layers flags t

-- `parsePTL`, with `updatePTL` on an `SPSInfo` that is still zero.
unfoldable pub parse_ptl : ℕ → GolombBitReader → Option (Ptl × GolombBitReader)
unfolding layer_flags skip_layers skip_times read_bit read_bits read_bits32 read_bits64
parse_ptl layers r = do
  space ← read_bits 2 r
  tier ← read_bit space.1
  profile ← read_bits 5 tier.1
  compatibility ← read_bits32 32 profile.1
  constraints ← read_bits64 48 compatibility.1
  level ← read_bits 8 constraints.1
  after ←
      if layers == 0
      then some level.1
      else (layer_flags layers level.1 >>= λ flags.
          skip_times (read_bits 2) (8 - layers) flags.1 >>= λ s. skip_layers flags.0 s)
  some (
    record {
      general_profile_space = space.0;
      general_tier_flag = tier.0;
      general_profile_idc = profile.0;
      general_profile_compatibility_flags = compatibility.0;
      general_constraint_indicator_flags = constraints.0;
      general_level_idc = level.0;
    },
    after,
  )

-- What `ParseSPS` returns, or its panic.
pub data Parsed : Type 0 where
  failed panics : Parsed
  parsed : SpsInfo → Parsed

-- `ParseSPS` up to the flag of the VUI, and what is left.
unfoldable pub parse_fields : GolombBitReader → Option (SpsInfo × GolombBitReader)
unfolding parse_ptl skip_times read_bit read_bits read_exponential_golomb_code
parse_fields r = do
  vps ← read_bits 4 r
  layers ← read_bits 3 vps.1
  nested ← read_bit layers.1
  ptl ← parse_ptl layers.0 nested.1
  id ← read_exponential_golomb_code ptl.1
  chroma ← read_exponential_golomb_code id.1
  plane ← if chroma.0 == 3 then skip_times read_bit 1 chroma.1 else some chroma.1
  across ← read_exponential_golomb_code plane
  down ← read_exponential_golomb_code across.1
  window ← read_bit down.1
  cropped ←
      if window.0 == 0 then some window.1 else skip_times read_exponential_golomb_code 4 window.1
  luma ← read_exponential_golomb_code cropped
  depth ← read_exponential_golomb_code luma.1
  count ← read_exponential_golomb_code depth.1
  ordering ← read_bit count.1
  orders ←
      skip_times read_exponential_golomb_code (if ordering.0 == 0 then 3 else 3 * (layers.0 + 1))
        ordering.1
  sizes ← skip_times read_exponential_golomb_code 6 orders
  some (
    record {
      ptl = ptl.0;
      num_temporal_layers = layers.0 + 1;
      temporal_id_nested = nested.0;
      chroma_format = chroma.0;
      width = across.0;
      height = down.0;
      bit_depth_luma_minus8 = luma.0;
      bit_depth_chroma_minus8 = depth.0;
      fps = 0;
    },
    sizes,
  )

-- `ParseSPS`.
unfoldable pub parse_sps : List ℕ → Parsed
unfolding nal2rbsp parse_fields parse_vui read_bit
parse_sps (h1 ∷ h0 ∷ b) = elim (parse_fields (record { source = nal2rbsp b; buf = 0; left = 0 })) [
  | none ↦ failed
  | some (info, r) ↦ elim (read_bit r) [
    | none ↦ failed
    | some (flag, s) ↦
        if flag == 0
        then parsed info
        else elim (parse_vui s) [ none ↦ panics | some fps ↦ parsed (record info { fps = fps }) ]
  ]
]
parse_sps _ = failed
