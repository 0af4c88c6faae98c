-- ===== src/Fmp4/Fragment/Size.antt =====
-- The sizes of the boxes of a fragment, and the estimate that the data offsets are counted from.
use vrtc_sdk.Prelude.{
  ℕ, ◌+◌, ◌*◌, ◌%◌, ◌^◌, ◌<◌, ◌≡◌, refl, Bool, true, false, List, [], ◌∷◌, ◌++◌, arith,
}
use vrtc_sdk.Prelude.{length, length-append}
use vrtc_sdk.Prelude.Int.{ℤ, to_uint64}
use vrtc_sdk.Prelude.Endian.{codes, put32, put64}
use vrtc_sdk.Fmp4.Track.{Sample, Track}
use vrtc_sdk.Fmp4.Box.Find.{length-make_box, length-make_full_box}
use vrtc_sdk.Fmp4.Fragment.{
  per_sample_size, trafs_size, estimate_moof_size, build_mfhd, build_tfhd, build_tfdt, trun_entries,
  trun_flags, build_trun, build_traf, sizes_of, build_trafs, build_moof, sample_bytes,
}

pub length-trun_entries :
    (video : Bool) (s : List Sample)
    → length (trun_entries video s) ≡ length s * per_sample_size video
unfolding trun_entries per_sample_size
length-trun_entries true [] = refl
length-trun_entries false [] = refl
length-trun_entries true (x ∷ s) = omega (arith, length-trun_entries true s)
length-trun_entries false (x ∷ s) = omega (arith, length-trun_entries false s)

-- The size of a traf, as `estimateMoofSize` has it.
unfoldable pub traf_size : Track → ℕ
traf_size t = 56 + (8 + length t.samples * per_sample_size t.has_video)

length-build_tfhd : (id : ℕ) → length (build_tfhd id) ≡ 16
unfolding build_tfhd
length-build_tfhd id = length-make_full_box (codes "tfhd") 0 0x020000 (put32 id [])

length-build_tfdt : (t : ℤ) → length (build_tfdt t) ≡ 20
unfolding build_tfdt
length-build_tfdt t = length-make_full_box (codes "tfdt") 1 0 (put64 (to_uint64 t) [])

length-build_trun : (t : Track) (offset : ℕ) → length (build_trun t offset) + 44 ≡ traf_size t
unfolding build_trun traf_size
length-build_trun t offset = omega (
  arith,
  length-trun_entries t.has_video t.samples,
  length-make_full_box (codes "trun") 1 (trun_flags t.has_video)
      (put32 (length t.samples) (put32 offset (trun_entries t.has_video t.samples))),
)

pub length-build_traf : (t : Track) (offset : ℕ) → length (build_traf t offset) ≡ traf_size t
unfolding build_traf
length-build_traf t offset = omega (
  arith,
  length-make_box (codes "traf")
      (build_tfhd t.id ++ (build_tfdt t.base_time ++ build_trun t offset)),
  length-append (build_tfhd t.id) (build_tfdt t.base_time ++ build_trun t offset),
  length-append (build_tfdt t.base_time) (build_trun t offset),
  length-build_tfhd t.id,
  length-build_tfdt t.base_time,
  length-build_trun t offset,
)

pub length-build_trafs :
    (ts : List Track) (offset : ℕ) → length (build_trafs ts offset) ≡ trafs_size ts
unfolding build_trafs trafs_size traf_size
length-build_trafs [] offset = refl
length-build_trafs (t ∷ ts) offset = omega (
  arith,
  length-append (build_traf t (offset % 2 ^ 32)) (build_trafs ts (offset + sizes_of t.samples)),
  length-build_traf t (offset % 2 ^ 32),
  length-build_trafs ts (offset + sizes_of t.samples),
)

-- The moof that is written for some tracks has the size that `estimateMoofSize` counts, when that is
-- below 2^32.
pub length-build_moof :
    (active : List Track) (seq : ℕ)
    → 24 + trafs_size active < 2 ^ 32
    → length (build_moof active seq) ≡ estimate_moof_size active
unfolding build_moof build_mfhd estimate_moof_size
length-build_moof active seq h = omega (
  arith,
  length-make_box (codes "moof")
      (build_mfhd seq ++ build_trafs active (estimate_moof_size active + 8)),
  length-append (build_mfhd seq) (build_trafs active (estimate_moof_size active + 8)),
  length-make_full_box (codes "mfhd") 0 0 (put32 seq []),
  length-build_trafs active (estimate_moof_size active + 8),
)

-- The media that the samples take.
pub length-sample_bytes : (s : List Sample) → length (sample_bytes s) ≡ sizes_of s
unfolding sample_bytes sizes_of
length-sample_bytes [] = refl
length-sample_bytes (x ∷ s) =
    omega (arith, length-append x.body (sample_bytes s), length-sample_bytes s)
