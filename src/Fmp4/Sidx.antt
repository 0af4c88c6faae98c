-- ===== src/Fmp4/Sidx.antt =====
-- The sidx box: `BuildSidx` of av/format/fmp4/muxer.go, and how demuxer.go reads it.
use vrtc_sdk.Prelude.Endian.{put16, put32, put64, codes}
use vrtc_sdk.Prelude.Int.{sub64, to_uint32, to_uint64}
use vrtc_sdk.Prelude.{length}
use vrtc_sdk.Fmp4.Track.{dts_to_timescale}
use vrtc_sdk.Fmp4.Box.{make_full_box}
use vrtc_sdk.Prelude.{
  ℕ, zero, suc, ◌+◌, ◌/◌, ◌%◌, ◌^◌, Bool, true, false, not, Option, none, some, ◌>>=◌, List, [],
  ◌∷◌,
}
use vrtc_sdk.Prelude.{◌==◌, if◌then◌else◌, drop}
use vrtc_sdk.Prelude.Int.{ℤ, pos, add64, of_uint64}
use vrtc_sdk.Prelude.Endian.{get16, get32, get64}
use vrtc_sdk.Fmp4.Mdat.{ticks_to_duration}

-- `SidxEntry`.
pub record SidxEntry : Type 0 where
  pub pts : ℤ
  pub duration : ℤ
  pub offset : ℤ
  pub size : ℤ
  pub starts_with_sap : Bool

-- The references of a sidx; `time` is a uint64, and a reference has twelve bytes.
unfoldable pub sidx_entries : ℕ → List ℕ → ℕ → ℕ → ℤ → Option (List SidxEntry)
sidx_entries zero r timescale time offset = some []
sidx_entries (suc n) r timescale time offset = do
  word0 ← get32 r
  duration ← get32 (drop 4 r)
  word2 ← get32 (drop 8 r)
  later ←
      sidx_entries n (drop 12 r) timescale ((time + duration) % 2 ^ 64)
        (add64 offset (pos (word0 % 2 ^ 31)))
  some (
      record {
        pts = ticks_to_duration (of_uint64 time) timescale;
        duration = ticks_to_duration (pos duration) timescale;
        offset = offset;
        size = pos (word0 % 2 ^ 31);
        starts_with_sap = not (word2 / 2 ^ 31 % 2 == 0);
      }
      ∷ later)

-- The end of `ParseSidx`, from the reserved bytes on.
unfoldable pub sidx_references : List ℕ → ℕ → ℕ → ℤ → Option (List SidxEntry)
unfolding sidx_entries
sidx_references r timescale time anchor = do
  count ← get16 (drop 2 r)
  entries ← sidx_entries count (drop 4 r) timescale time anchor
  if count == 0 then none else some entries

-- The times of a sidx, which have a width that the version says.
unfoldable pub sidx_times : Bool → List ℕ → ℕ → ℤ → Option (List SidxEntry)
unfolding sidx_references
sidx_times true r timescale anchor = do
  time ← get32 r
  first ← get32 (drop 4 r)
  sidx_references (drop 8 r) timescale time (add64 anchor (pos first))
sidx_times false r timescale anchor = do
  time ← get64 r
  first ← get64 (drop 8 r)
  sidx_references (drop 16 r) timescale time (add64 anchor (of_uint64 first))

-- `ParseSidx`.
unfoldable pub parse_sidx : List ℕ → ℤ → Option (List SidxEntry)
unfolding sidx_times
parse_sidx (version ∷ f2 ∷ f1 ∷ f0 ∷ r) anchor = get32 (drop 4 r) >>= λ timescale.
    if timescale == 0 then none else sidx_times (version == 0) (drop 8 r) timescale anchor
parse_sidx _ anchor = none

-- `FragmentIndex`.
pub record FragmentIndex : Type 0 where
  pub pts : ℤ
  pub duration : ℤ
  pub offset : ℤ
  pub size : ℤ
  pub starts_with_sap : Bool

-- The bytes that a fragment takes up to the next one.
unfoldable pub referenced_size : FragmentIndex → List FragmentIndex → ℤ
referenced_size e [] = e.size
referenced_size e (f ∷ fs) = sub64 f.offset e.offset

-- The loop of `BuildSidx`.
unfoldable pub build_references : List FragmentIndex → ℕ → List ℕ
unfolding referenced_size
build_references [] timescale = []
build_references (e ∷ es) timescale = put32 (to_uint32 (referenced_size e es) % 2 ^ 31) (
    put32 (to_uint32 (dts_to_timescale e.duration timescale))
      (put32 (if e.starts_with_sap then 0x90000000 else 0) (build_references es timescale)))

-- `BuildSidx`.
unfoldable pub build_sidx : List FragmentIndex → ℕ → ℕ → ℤ → List ℕ
unfolding build_references
build_sidx [] reference_id timescale anchor = []
build_sidx (e ∷ es) reference_id timescale anchor = make_full_box (codes "sidx") 1 0 (
    put32 reference_id (
      put32 timescale (
        put64 (to_uint64 (dts_to_timescale e.pts timescale)) (
          put64 (to_uint64 (sub64 e.offset anchor))
            (put16 0 (put16 (length (e ∷ es)) (build_references (e ∷ es) timescale)))))))
