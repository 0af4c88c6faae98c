-- ===== src/Pcm/Flac.antt =====
-- av/codec/pcm/flac.go: the codec data of FLAC. `rune_len` is the width that `utf8.DecodeRune` gives.
use vrtc_sdk.Prelude.{
  ℕ, ◌+◌, ◌*◌, ◌/◌, ◌%◌, ◌^◌, Bool, false, ◌⊎◌, inl, inr, List, [], ◌∷◌, ltb, ◌==◌, if◌then◌else◌,
  length, drop, Option, none, some,
}
use vrtc_sdk.Prelude.Endian.{put16, get16}
use vrtc_sdk.Fmp4.Box.{zeros}

-- `FLACCodecData`.
pub record FlacCodecData : Type 0 where
  pub source_type : ℕ
  pub sample_rate : ℕ
  pub ch_layout : ℕ

pub data FlacError : Type 0 where
  packet_too_short invalid_utf8 packet_truncated : FlacError

-- `FLACHeader`.
unfoldable pub flac_header : Bool → ℕ → List ℕ
flac_header magic rate =
    let b : List ℕ =
      0x80
      ∷ 0
      ∷ 0
      ∷ 0x22
      ∷ put16 32768 (
          put16 32768 (
            zeros 6 (
              rate / 2 ^ 12 % 256
              ∷ rate / 2 ^ 4 % 256
              ∷ rate * 2 ^ 4 % 256
              ∷ 0xf0
              ∷ zeros 20 []))) in
    if magic then 102 ∷ 76 ∷ 97 ∷ 67 ∷ b else zeros 4 b

-- `STREAMINFOBlock`.
unfoldable pub streaminfo_block : FlacCodecData → List ℕ
unfolding flac_header
streaminfo_block f = drop 4 (flac_header false f.sample_rate)

-- `PacketDuration`, in nanoseconds; none is the panic of a rate of 0.
unfoldable pub packet_duration : (List ℕ → ℕ) → FlacCodecData → List ℕ → Option (FlacError ⊎ ℕ)
packet_duration rune_len f pkt =
    let n = rune_len (drop 4 pkt) in
    if ltb (length pkt) 8
    then some (inl packet_too_short)
    else if n == 0
    then some (inl invalid_utf8)
    else elim (get16 (drop (4 + n) pkt)) [
      | none ↦ some (inl packet_truncated)
      | some size ↦
          if f.sample_rate == 0 then none else some (inr ((size + 1) * 10 ^ 9 / f.sample_rate))
    ]
