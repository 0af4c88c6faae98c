-- ===== src/Pcm/Ulaw.antt =====
-- av/codec/pcm/pcmu.go.
use vrtc_sdk.Prelude.{
  ℕ, zero, suc, ◌+◌, ◌-◌, ◌*◌, ◌/◌, ◌%◌, ◌^◌, ◌&&◌, ltb, leb, ◌==◌, if◌then◌else◌,
}

-- `-x` on int16.
abbrev pub negate16 : ℕ → ℕ
negate16 p = (2 ^ 16 - p) % 2 ^ 16

-- `PCMUtoPCM`; `^ulaw` is 255 - ulaw, and the shifted value fits in an int16.
unfoldable pub pcmuto_pcm : ℕ → ℕ
pcmuto_pcm ulaw =
    let u = 255 - ulaw in
    let exponent = u / 2 ^ 4 % 2 ^ 3 in
    let sample = ((u % 2 ^ 4 + 16) * 2 + 1) * 2 ^ (exponent + 2) - 132 in
    if ltb u 128 then sample else if sample == 0 then 2 ^ 16 - 1 else negate16 sample

-- The loop that looks for the highest bit of a sample from bit 14 down, with the exponent; bit 7 or a
-- higher one is set, since the bias is.
unfoldable pub exponent_of : ℕ → ℕ → ℕ
exponent_of zero p = 0
exponent_of (suc e) p =
    let lower = exponent_of e p in if p / 2 ^ (e + 8) % 2 == 0 then lower else suc e

-- `PCMtoPCMU`.
unfoldable pub pcmto_pcmu : ℕ → ℕ
unfolding exponent_of
pcmto_pcmu pcm =
    let negative = leb (2 ^ 15) pcm in
    let magnitude = if negative then negate16 pcm else pcm in
    let limited = if ltb magnitude (2 ^ 15) && ltb 32635 magnitude then 32635 else magnitude in
    let biased = (limited + 132) % 2 ^ 16 in
    let exponent = exponent_of 7 biased in
    255 - ((if negative then 128 else 0) + biased / 2 ^ (exponent + 3) % 2 ^ 4 + exponent * 2 ^ 4)
