-- ===== src/Pcm/Alaw.antt =====
-- av/codec/pcm/pcma.go.
use vrtc_sdk.Prelude.{ℕ, ◌+◌, ◌-◌, ◌*◌, ◌/◌, ◌%◌, ◌^◌, bit_xor, ltb, leb, ◌==◌, if◌then◌else◌}
use vrtc_sdk.Pcm.Ulaw.{negate16, exponent_of}

-- `PCMAtoPCM`; the shifted value fits in an int16.
unfoldable pub pcmato_pcm : ℕ → ℕ
pcmato_pcm alaw =
    let a = bit_xor alaw 0xd5 in
    let exponent = a / 2 ^ 4 % 2 ^ 3 in
    let sample =
      (a % 2 ^ 4 * 2 ^ 4 + 8 + (if exponent == 0 then 0 else 0x100)) * 2 ^ (exponent - 1) in
    if ltb a 128 then sample else negate16 sample

-- `PCMtoPCMA`; a sample of 16 bits is at most `alawMax`.
unfoldable pub pcmto_pcma : ℕ → ℕ
unfolding exponent_of
pcmto_pcma pcm =
    let negative = leb (2 ^ 15) pcm in
    let magnitude = if negative then negate16 pcm else pcm in
    let exponent = exponent_of 7 magnitude in
    let sign = if negative then 128 else 0 in
    bit_xor
      (if exponent == 0
        then sign + magnitude / 2 ^ 4 % 2 ^ 4
        else sign + exponent * 2 ^ 4 + magnitude / 2 ^ (exponent + 3) % 2 ^ 4)
      0xd5
