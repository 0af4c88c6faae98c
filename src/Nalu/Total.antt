-- ===== src/Nalu/Total.antt =====
-- The framing functions on any slice of bytes: fuel, and ranges.
use vrtc_sdk.Nalu.{Converted, panic, stuck}

-- An answer of the converter that is one of its two in Go.
abbrev pub Returns : Converted → Type 0
Returns panic = ⊥
Returns stuck = ⊥
Returns _ = Unit
