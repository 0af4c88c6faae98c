-- ===== src/H264Parser/Sps.antt =====
-- av/codec/h264parser/sps.go. `infinite` is what the conversion of a float that is not finite to uint
-- gives, which Go leaves open; the other quotients of words of 32 bits are floored as they should be.
use vrtc_sdk.Prelude.{
  ℕ, zero, suc, ◌+◌, ◌-◌, ◌*◌, ◌/◌, ◌%◌, ◌^◌, Bool, true, false, not, ◌||◌, Option, some, ◌>>=◌,
  List, [], ◌∷◌, ltb, ◌==◌, if◌then◌else◌,
}
use vrtc_sdk.Bits.Golomb.{
  GolombBitReader, read_bit, read_bits, read_exponential_golomb_code, read_se,
}

-- `SPSInfo`.
pub record SpsInfo : Type 0 where
  pub id : ℕ
  pub profile_idc : ℕ
  pub level_idc : ℕ
  pub constraint_set_flag : ℕ
  pub mb_width : ℕ
  pub mb_height : ℕ
  pub crop_left : ℕ
  pub crop_right : ℕ
  pub crop_top : ℕ
  pub crop_bottom : ℕ
  pub width : ℕ
  pub height : ℕ
  pub fps : ℕ

-- `RemoveH264orH265EmulationBytes`.
unfoldable pub remove_h264or_h265_emulation_bytes : List ℕ → List ℕ
remove_h264or_h265_emulation_bytes [] = []
remove_h264or_h265_emulation_bytes (a ∷ []) = a ∷ []
remove_h264or_h265_emulation_bytes (a ∷ b ∷ []) = a ∷ b ∷ []
remove_h264or_h265_emulation_bytes (a ∷ b ∷ c ∷ r) =
    let skipped = remove_h264or_h265_emulation_bytes r in
    let kept = remove_h264or_h265_emulation_bytes (b ∷ c ∷ r) in
    if not (a == 0) || not (b == 0) || not (c == 3) then a ∷ kept else 0 ∷ 0 ∷ skipped

-- A read whose value is not used, under a condition, and several of them.
abbrev skip_if :
    Bool
    → (GolombBitReader → Option (ℕ × GolombBitReader))
    → GolombBitReader
    → Option GolombBitReader
skip_if false f r = some r
skip_if true f r = f r >>= λ v. some v.1

unfoldable pub skip_times :
    (GolombBitReader → Option (ℕ × GolombBitReader)) → ℕ → GolombBitReader → Option GolombBitReader
skip_times f zero r = some r
skip_times f (suc n) r = f r >>= λ v. skip_times f n v.1

-- A scaling list, from its last and its next scale.
unfoldable pub scaling_list : ℕ → ℕ → ℕ → GolombBitReader → Option GolombBitReader
unfolding read_se
scaling_list zero last next r = some r
scaling_list (suc n) last next r =
    let idle = scaling_list n last next r in
    if next == 0
    then idle
    else (read_se r >>= λ delta.
        let scale = (last + delta.0 + 256) % 2 ^ 64 % 256 in
        scaling_list n (if scale == 0 then last else scale) scale delta.1)

unfoldable pub scaling_lists : ℕ → ℕ → GolombBitReader → Option GolombBitReader
unfolding scaling_list read_bit
scaling_lists zero i r = some r
scaling_lists (suc n) i r = do
  present ← read_bit r
  after ←
      if present.0 == 0
      then some present.1
      else scaling_list (if ltb i 6 then 16 else 64) 8 8 present.1
  scaling_lists n (i + 1) after

-- `parseHighProfileFields`.
unfoldable pub parse_high_profile_fields : GolombBitReader → Option GolombBitReader
unfolding scaling_lists skip_times read_bit read_exponential_golomb_code
parse_high_profile_fields r = do
  chroma ← read_exponential_golomb_code r
  after ← skip_if (chroma.0 == 3) read_bit chroma.1
  depths ← skip_times read_exponential_golomb_code 2 after
  bypass ← read_bit depths
  matrix ← read_bit bypass.1
  if matrix.0 == 0 then some matrix.1 else scaling_lists 8 0 matrix.1

-- The cases of pic_order_cnt_type.
unfoldable pub skip_order_count : GolombBitReader → Option GolombBitReader
unfolding skip_times read_bit read_se read_exponential_golomb_code
skip_order_count r = do
  always ← read_bit r
  offsets ← skip_times read_se 2 always.1
  n ← read_exponential_golomb_code offsets
  skip_times read_se n.0 n.1

unfoldable pub skip_order_type : ℕ → GolombBitReader → Option GolombBitReader
unfolding skip_order_count read_exponential_golomb_code
skip_order_type zero r = skip_if true read_exponential_golomb_code r
skip_order_type (suc zero) r = skip_order_count r
skip_order_type (suc (suc n)) r = some r

-- The parts of the VUI before the timing: the aspect ratio, the overscan, the signal type and the
-- chroma location.
unfoldable pub skip_aspect : GolombBitReader → Option GolombBitReader
unfolding skip_times read_bit read_bits
skip_aspect r = do
  present ← read_bit r
  if present.0 == 0
      then some present.1
      else (read_bits 8 present.1 >>= λ idc.
          if idc.0 == 255 then skip_times (read_bits 16) 2 idc.1 else some idc.1)

unfoldable pub skip_overscan : GolombBitReader → Option GolombBitReader
unfolding read_bit
skip_overscan r = read_bit r >>= λ present. skip_if (not (present.0 == 0)) read_bit present.1

unfoldable pub skip_colours : GolombBitReader → Option GolombBitReader
unfolding skip_times read_bit read_bits
skip_colours r = do
  format ← read_bits 3 r
  range ← read_bit format.1
  colours ← read_bit range.1
  if colours.0 == 0 then some colours.1 else skip_times (read_bits 8) 3 colours.1

unfoldable pub skip_signal : GolombBitReader → Option GolombBitReader
unfolding skip_colours read_bit
skip_signal r =
    read_bit r >>= λ present. if present.0 == 0 then some present.1 else skip_colours present.1

unfoldable pub skip_chroma : GolombBitReader → Option GolombBitReader
unfolding skip_times read_bit read_se
skip_chroma r = read_bit r >>= λ present.
    if present.0 == 0 then some present.1 else skip_times read_se 2 present.1

-- `math.Floor(timeScale / numUnitsInTick / 2)`.
unfoldable pub frames_per_second : (ℕ → ℕ) → ℕ → ℕ → ℕ
frames_per_second infinite units scale = if units == 0 then infinite scale else scale / (2 * units)

-- `parseVUI`; the FPS, 0 if there is no timing.
unfoldable pub parse_vui : (ℕ → ℕ) → GolombBitReader → Option ℕ
unfolding skip_aspect skip_overscan skip_signal skip_chroma frames_per_second read_bit read_bits
parse_vui infinite r = do
  aspect ← skip_aspect r
  overscan ← skip_overscan aspect
  signal ← skip_signal overscan
  chroma ← skip_chroma signal
  timing ← read_bit chroma
  if timing.0 == 0
      then some 0
      else (read_bits 32 timing.1 >>= λ units.
          read_bits 32 units.1 >>= λ scale. some (frames_per_second infinite units.0 scale.0))

-- The four crop values.
unfoldable pub read_crop : Bool → GolombBitReader → Option ((ℕ × ℕ × ℕ × ℕ) × GolombBitReader)
unfolding read_exponential_golomb_code
read_crop false r = some ((0, 0, 0, 0), r)
read_crop true r = do
  left ← read_exponential_golomb_code r
  right ← read_exponential_golomb_code left.1
  top ← read_exponential_golomb_code right.1
  bottom ← read_exponential_golomb_code top.1
  some ((left.0, right.0, top.0, bottom.0), bottom.1)

-- `a - b - c` on uint, which wraps.
abbrev minus : ℕ → ℕ → ℕ → ℕ
minus a b c = (a + 2 * 2 ^ 64 - b % 2 ^ 64 - c % 2 ^ 64) % 2 ^ 64

-- The profiles with extra fields.
unfoldable pub is_high_profile : ℕ → Bool
is_high_profile p =
    p == 100 || p == 110 || p == 122 || p == 244 || p == 44 || p == 83 || p == 86 || p == 118

-- `ParseSPS` from the sizes on; none is an error.
unfoldable pub parse_sizes : (ℕ → ℕ) → SpsInfo → GolombBitReader → Option SpsInfo
unfolding read_crop parse_vui read_bit read_exponential_golomb_code
parse_sizes infinite s r = do
  across ← read_exponential_golomb_code r
  down ← read_exponential_golomb_code across.1
  frames ← read_bit down.1
  adaptive ← skip_if (frames.0 == 0) read_bit frames.1
  inference ← read_bit adaptive
  cropping ← read_bit inference.1
  crop ← read_crop (not (cropping.0 == 0)) cropping.1
  vui ← read_bit crop.1
  fps ← if vui.0 == 0 then some 0 else parse_vui infinite vui.1
  some (record s {
    mb_width = across.0 + 1;
    mb_height = down.0 + 1;
    crop_left = crop.0.0;
    crop_right = crop.0.1;
    crop_top = crop.0.2;
    crop_bottom = crop.0.3;
    width = minus ((across.0 + 1) * 16) (crop.0.0 * 2) (crop.0.1 * 2);
    height = minus ((2 - frames.0) * (down.0 + 1) * 16) (crop.0.2 * 2) (crop.0.3 * 2);
    fps = fps;
  })

-- `ParseSPS`.
unfoldable pub parse_sps : (ℕ → ℕ) → List ℕ → Option SpsInfo
unfolding remove_h264or_h265_emulation_bytes is_high_profile parse_high_profile_fields
    skip_order_type parse_sizes read_bit read_bits read_exponential_golomb_code
parse_sps infinite sps = do
  header ←
      read_bits 8 (record { source = remove_h264or_h265_emulation_bytes sps; buf = 0; left = 0 })
  profile ← read_bits 8 header.1
  constraints ← read_bits 8 profile.1
  level ← read_bits 8 constraints.1
  id ← read_exponential_golomb_code level.1
  high ← if is_high_profile profile.0 then parse_high_profile_fields id.1 else some id.1
  frame_num ← read_exponential_golomb_code high
  order ← read_exponential_golomb_code frame_num.1
  counted ← skip_order_type order.0 order.1
  refs ← read_exponential_golomb_code counted
  gaps ← read_bit refs.1
  parse_sizes infinite
      (record {
        id = id.0;
        profile_idc = profile.0;
        level_idc = level.0;
        constraint_set_flag = constraints.0 / 2 ^ 2;
        mb_width = 0;
        mb_height = 0;
        crop_left = 0;
        crop_right = 0;
        crop_top = 0;
        crop_bottom = 0;
        width = 0;
        height = 0;
        fps = 0;
      })
      gaps.1
