-- ===== src/Nalu/Detect.antt =====
-- `IsAnnexBOrAVCC`: which framing is recognised.
use vrtc_sdk.Prelude.{ℕ, ◌^◌, ◌≤◌, ◌<◌, ◌≡◌, arith, ◌≢◌}
use vrtc_sdk.Prelude.{List, [], length, false}
use vrtc_sdk.Pio.{be32}
use vrtc_sdk.Nalu.{is_annexb_or_avcc, read_nalu_length, nalu_avcc, is_code4}

pub read_nalu_length-be32 : (n : ℕ) (r : List ℕ) → n < 2 ^ 32 → read_nalu_length (be32 n r) ≡ n
unfolding read_nalu_length
read_nalu_length-be32 n r h = omega arith

code4-be32 : (n : ℕ) (r : List ℕ) → n < 2 ^ 32 → n ≢ 1 → is_code4 (be32 n r) ≡ false
code4-be32 n r h k = ground arith

-- A slice that starts with the length of a unit that fits in it, of two bytes or more, is AVCC. This
-- includes the lengths 256 to 511, whose prefix starts like a 3-byte start code.
pub is_annexb_or_avcc_prefix :
    (n : ℕ) (r : List ℕ)
    → n < 2 ^ 32
    → 2 ≤ n
    → n ≤ length r
    → is_annexb_or_avcc (be32 n r) ≡ nalu_avcc
unfolding is_annexb_or_avcc
is_annexb_or_avcc_prefix n r h two fits =
    ground (arith, read_nalu_length-be32 n [] h, code4-be32 n r h)
