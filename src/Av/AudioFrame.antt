-- ===== src/Av/AudioFrame.antt =====
-- av/audioframe.go: sample formats and raw audio frames.
-- A plane of samples is the list of its bytes, and `none` is a panic. Sample counts and bounds are
-- naturals, so the test for a start below 0 is void. A slice beyond the length of a plane is a panic.
pub mod Concat
mod Tests
use vrtc_sdk.Prelude.{
  ℕ, ◌+◌, ◌-◌, ◌*◌, Bool, true, false, ◌||◌, not, Option, none, some, ◌>>=◌, List, [], ◌∷◌, ◌++◌,
}
use vrtc_sdk.Prelude.{ltb, ◌==◌, if◌then◌else◌, length, take, drop}

-- `other` is a number that names no format.
pub data SampleFormat : Type 0 where
  u8 s16 s32 flt dbl u8p s16p s32p fltp dblp u32 : SampleFormat
  other : ℕ → SampleFormat

pub bytes_per_sample : SampleFormat → ℕ
bytes_per_sample u8 = 1
bytes_per_sample u8p = 1
bytes_per_sample s16 = 2
bytes_per_sample s16p = 2
bytes_per_sample flt = 4
bytes_per_sample fltp = 4
bytes_per_sample s32 = 4
bytes_per_sample s32p = 4
bytes_per_sample u32 = 4
bytes_per_sample dbl = 8
bytes_per_sample dblp = 8
bytes_per_sample (other n) = 0

pub is_planar : SampleFormat → Bool
is_planar s16p = true
is_planar s32p = true
is_planar fltp = true
is_planar dblp = true
is_planar _ = false

-- The number of a format, by which the code compares formats.
pub format_number : SampleFormat → ℕ
format_number u8 = 1
format_number s16 = 2
format_number s32 = 3
format_number flt = 4
format_number dbl = 5
format_number u8p = 6
format_number s16p = 7
format_number s32p = 8
format_number fltp = 9
format_number dblp = 10
format_number u32 = 11
format_number (other n) = n

pub record AudioFrame : Type 0 where
  pub sample_format : SampleFormat
  pub channel_layout : ℕ
  pub sample_count : ℕ
  pub sample_rate : ℕ
  pub planes : List (List ℕ)

pub has_same_format : AudioFrame → AudioFrame → Bool
has_same_format s t =
    if not (s.sample_rate == t.sample_rate)
    then false
    else if not (s.channel_layout == t.channel_layout)
    then false
    else format_number s.sample_format == format_number t.sample_format

-- The loop of `Slice`, at byte offsets.
pub slice_planes : ℕ → ℕ → List (List ℕ) → Option (List (List ℕ))
slice_planes from to [] = some []
slice_planes from to (p ∷ ps) =
    let rest = slice_planes from to ps >>= λ qs. some (take (to - from) (drop from p) ∷ qs) in
    if ltb (length p) to then none else rest

pub slice_frame : AudioFrame → ℕ → ℕ → Option AudioFrame
slice_frame s start end =
    let size = bytes_per_sample s.sample_format in
    if ltb s.sample_count end || ltb end start
    then none
    else (slice_planes (start * size) (end * size) s.planes >>= λ planes.
        some (record s { planes = planes; sample_count = end - start }))

-- The loop of `Concat`, over the planes of the first frame.
pub concat_planes : List (List ℕ) → List (List ℕ) → Option (List (List ℕ))
concat_planes [] qs = some []
concat_planes (p ∷ ps) [] = none
concat_planes (p ∷ ps) (q ∷ qs) = concat_planes ps qs >>= λ rest. some ((p ++ q) ∷ rest)

pub concat_frames : AudioFrame → AudioFrame → Option AudioFrame
concat_frames s t = concat_planes s.planes t.planes >>= λ planes.
    some (record s { planes = planes; sample_count = s.sample_count + t.sample_count })
