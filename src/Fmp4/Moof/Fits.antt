-- ===== src/Fmp4/Moof/Fits.antt =====
-- The samples that the muxer makes have fields of the widths that a trun has.
use vrtc_sdk.Prelude.{◌*◌, ◌+◌, ◌^◌, ◌<◌, Bool, true, false, ◌&&◌, List, [], ◌∷◌, arith}
use vrtc_sdk.Prelude.{All, All-append, if◌then◌else◌, ◌==◌}
use vrtc_sdk.Prelude.Int.{ℤ, ltb_ℤ, sub64, to_uint32, to_uint32_small, to_int32-IsInt32}
use vrtc_sdk.Av.{Packet}
use vrtc_sdk.Fmp4.Track.{Sample, Track, make_sample, back_fill, patch_last, append_sample}
use vrtc_sdk.Fmp4.Moof.Samples.{FitsSample}

flags_fit :
    (video key : Bool)
    → (if video then (if key then 2 * 16 ^ 6 else 16 ^ 6 + 16 ^ 4) else 0) < 2 ^ 32
flags_fit true true = omega arith
flags_fit true false = omega arith
flags_fit false key = omega arith

make_sample-FitsSample : (p : Packet) (t : Track) → FitsSample (make_sample p t)
unfolding make_sample
make_sample-FitsSample p t =
    (to_uint32_small _, flags_fit t.has_video p.key_frame, to_int32-IsInt32 _)

-- The back-filled duration of the last sample.
fill_fits :
    (b : Bool) (s : Sample) (d : ℤ)
    → FitsSample s
    → FitsSample (if b then record s { duration = to_uint32 d } else s)
fill_fits true s d f = (to_uint32_small d, f.1, f.2)
fill_fits false s d f = f

back_fill-All : (dts : ℤ) (s : List Sample) → All FitsSample s → All FitsSample (back_fill dts s)
unfolding back_fill
back_fill-All dts [] f = tt
back_fill-All dts (s ∷ []) f =
    (fill_fits (s.duration == 0 && ltb_ℤ s.dts dts) s (sub64 dts s.dts) f.0, tt)
back_fill-All dts (s ∷ t ∷ r) f = (f.0, back_fill-All dts (t ∷ r) f.1)

-- Appending a packet keeps the samples of a track within their widths.
pub append_sample-Fits :
    (p : Packet) (t : Track) → All FitsSample t.samples → All FitsSample (append_sample p t).samples
unfolding append_sample
append_sample-Fits p t f =
    All-append FitsSample _ _ (back_fill-All _ t.samples f) (make_sample-FitsSample p t, tt)

-- So does the duration that the last sample takes over.
pub patch_last-Fits : (s : List Sample) → All FitsSample s → All FitsSample (patch_last s)
unfolding patch_last
patch_last-Fits [] f = tt
patch_last-Fits (s ∷ []) f = f
patch_last-Fits (s ∷ t ∷ []) f = (f.0, (patched (t.duration == 0) f.1.0, tt))
  where
    patched :
        (b : Bool) → FitsSample t → FitsSample (if b then record t { duration = s.duration } else t)
    patched true g = (f.0.0, g.1, g.2)
    patched false g = g
patch_last-Fits (s ∷ t ∷ u ∷ r) f = (f.0, patch_last-Fits (t ∷ u ∷ r) f.1)
