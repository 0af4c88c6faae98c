-- ===== src/Pcm/RoundTrip.antt =====
-- Every byte of G.711 is encoded again from its sample.
use vrtc_sdk.Prelude.{
  ℕ, zero, suc, ◌-◌, ◌^◌, ◌<◌, ◌≡◌, refl, Bool, true, false, ◌&&◌, ◌==◌, ==_iff, Bool-cases, ltb,
  ltb→lt, arith, inl, inr,
}
use vrtc_sdk.Pcm.Ulaw.{pcmuto_pcm, pcmto_pcmu, exponent_of}
use vrtc_sdk.Pcm.Alaw.{pcmato_pcm, pcmto_pcma}

and-true : (x y : Bool) → (x && y) ≡ true → (x ≡ true) × (y ≡ true)
and-true true y h = (refl, h)
and-true false y h = cc

-- A test of all numbers below a bound.
all_below : ℕ → (ℕ → Bool) → Bool
all_below zero f = true
all_below (suc n) f = f n && all_below n f

all_below-true : (n : ℕ) (f : ℕ → Bool) (b : ℕ) → all_below n f ≡ true → b < n → f b ≡ true
unfolding all_below
all_below-true zero f b h l = absurd (omega arith)
all_below-true (suc n) f b h l =
    let both = and-true (f n) (all_below n f) h in
    elim (Bool-cases (ltb b n)) [
      | inl e ↦ all_below-true n f b both.1 (ltb→lt b n e)
      | inr e ↦ let same : b ≡ n = ground arith in rw same both.0
    ]

-- The two tests of a byte.
keeps : ℕ → Bool
unfolding pcmuto_pcm pcmto_pcmu exponent_of pcmato_pcm pcmto_pcma
keeps b = (pcmto_pcmu (pcmuto_pcm b) == b) && (pcmto_pcma (pcmato_pcm b) == b)

all_keep : all_below 256 keeps ≡ true
unfolding all_below keeps pcmuto_pcm pcmto_pcmu exponent_of pcmato_pcm pcmto_pcma
all_keep = refl

-- `PCMtoPCMU` gives back every byte from the sample that `PCMUtoPCM` makes of it, and `PCMtoPCMA` every
-- byte from the sample of `PCMAtoPCM`.
pub g711_round_trip :
    (b : ℕ) → b < 256 → (pcmto_pcmu (pcmuto_pcm b) ≡ b) × (pcmto_pcma (pcmato_pcm b) ≡ b)
unfolding keeps
g711_round_trip b h =
    let both = and-true _ _ (all_below-true 256 keeps b all_keep h) in
    ((==_iff _ b).0 both.0, (==_iff _ b).0 both.1)

-- The lowest sample is its own negative, so both encoders make it near silence.
lowest_sample :
    (pcmuto_pcm (pcmto_pcmu 0x8000) ≡ 2 ^ 16 - 1) × (pcmato_pcm (pcmto_pcma 0x8000) ≡ 2 ^ 16 - 8)
unfolding pcmuto_pcm pcmto_pcmu exponent_of pcmato_pcm pcmto_pcma
lowest_sample = (refl, refl)
