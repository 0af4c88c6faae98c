-- ===== src/Fmp4/Fragment.antt =====
-- av/format/fmp4/muxer.go: the boxes of a fragment.
-- `extra` is a number for the analytics, and `json` what `json.Marshal` makes of it.
pub mod Size
use vrtc_sdk.Prelude.{
  ℕ, suc, ◌+◌, ◌*◌, ◌%◌, ◌^◌, Bool, true, false, Option, none, some, List, [], ◌∷◌, ◌++◌,
}
use vrtc_sdk.Prelude.{ltb, if◌then◌else◌, length}
use vrtc_sdk.Prelude.Int.{ℤ, to_uint32, to_uint64}
use vrtc_sdk.Prelude.Endian.{codes, put32, put64}
use vrtc_sdk.Fmp4.Track.{Sample, Track}
use vrtc_sdk.Fmp4.Box.{make_box, make_full_box}

-- `perSampleSize`.
unfoldable pub per_sample_size : Bool → ℕ
per_sample_size true = 16
per_sample_size false = 8

-- The loop of `estimateMoofSize`.
unfoldable pub trafs_size : List Track → ℕ
unfolding per_sample_size
trafs_size [] = 0
trafs_size (t ∷ ts) =
    8 + 16 + 20 + (8 + 4 + (4 + 4 + length t.samples * per_sample_size t.has_video)) + trafs_size ts

unfoldable pub estimate_moof_size : List Track → ℕ
unfolding trafs_size
estimate_moof_size active = (8 + 16 + trafs_size active) % 2 ^ 32

unfoldable pub build_mfhd : ℕ → List ℕ
build_mfhd seq = make_full_box (codes "mfhd") 0 0 (put32 seq [])

unfoldable pub build_tfhd : ℕ → List ℕ
build_tfhd id = make_full_box (codes "tfhd") 0 0x020000 (put32 id [])

unfoldable pub build_tfdt : ℤ → List ℕ
build_tfdt base_time = make_full_box (codes "tfdt") 1 0 (put64 (to_uint64 base_time) [])

-- The entries of the samples of a trun; the size of a sample is `len(data)`.
unfoldable pub trun_entries : Bool → List Sample → List ℕ
trun_entries video [] = []
trun_entries true (s ∷ r) =
    put32 s.duration
      (put32 (length s.body) (put32 s.flags (put32 (to_uint32 s.pts_offset) (trun_entries true r))))
trun_entries false (s ∷ r) = put32 s.duration (put32 (length s.body) (trun_entries false r))

-- `videoTrunFlags` and `audioTrunFlags`.
unfoldable pub trun_flags : Bool → ℕ
trun_flags true = 0xf01
trun_flags false = 0x301

unfoldable pub build_trun : Track → ℕ → List ℕ
unfolding trun_entries trun_flags
build_trun ts data_offset =
    make_full_box (codes "trun") 1 (trun_flags ts.has_video)
      (put32 (length ts.samples) (put32 data_offset (trun_entries ts.has_video ts.samples)))

unfoldable pub build_traf : Track → ℕ → List ℕ
unfolding build_tfhd build_tfdt build_trun
build_traf ts data_offset =
    make_box (codes "traf")
      (build_tfhd ts.id ++ (build_tfdt ts.base_time ++ build_trun ts data_offset))

unfoldable pub sizes_of : List Sample → ℕ
sizes_of [] = 0
sizes_of (s ∷ r) = length s.body + sizes_of r

-- The trafs, with the data offsets that `flushFragment` counts from `offset` on.
unfoldable pub build_trafs : List Track → ℕ → List ℕ
unfolding build_traf sizes_of
build_trafs [] offset = []
build_trafs (t ∷ ts) offset =
    build_traf t (offset % 2 ^ 32) ++ build_trafs ts (offset + sizes_of t.samples)

unfoldable pub build_moof : List Track → ℕ → List ℕ
unfolding build_mfhd build_trafs estimate_moof_size
build_moof active seq =
    make_box (codes "moof") (build_mfhd seq ++ build_trafs active (estimate_moof_size active + 8))

unfoldable pub sample_bytes : List Sample → List ℕ
sample_bytes [] = []
sample_bytes (s ∷ r) = s.body ++ sample_bytes r

unfoldable pub track_bytes : List Track → List ℕ
unfolding sample_bytes
track_bytes [] = []
track_bytes (t ∷ ts) = sample_bytes t.samples ++ track_bytes ts

unfoldable pub build_mdat : List Track → List ℕ
unfolding track_bytes
build_mdat active = make_box (codes "mdat") (track_bytes active)

unfoldable pub build_emsg : ℤ → ℕ → List ℕ → List ℕ
build_emsg time id body = make_full_box (codes "emsg") 1 0 (
    codes "urn:vtpl:analytics:1"
    ++ (0 ∷ 0 ∷ put32 1000 (put64 (to_uint64 time) (put32 0xffffffff (put32 id body)))))

-- `collectEmsg`: the boxes, and the next id.
unfoldable pub sample_emsgs : (ℕ → List ℕ) → List Sample → ℕ → List ℕ × ℕ
unfolding build_emsg
sample_emsgs json [] id = ([], id)
sample_emsgs json (s ∷ r) id = elim s.extra [
  | none ↦ sample_emsgs json r id
  | some a ↦
      let (b, id') = sample_emsgs json r ((id + 1) % 2 ^ 32) in
      (build_emsg s.presentation_time_ms id (json a) ++ b, id')
]

unfoldable pub collect_emsg : (ℕ → List ℕ) → List Track → ℕ → List ℕ × ℕ
unfolding sample_emsgs
collect_emsg json [] id = ([], id)
collect_emsg json (t ∷ ts) id =
    let (b, id') = sample_emsgs json t.samples id in
    let (c, id'') = collect_emsg json ts id' in (b ++ c, id'')

-- What `flushFragment` writes.
unfoldable pub fragment_bytes : (ℕ → List ℕ) → ℕ → ℕ → List Track → List ℕ
unfolding collect_emsg build_moof build_mdat
fragment_bytes json seq emsg_id active =
    (collect_emsg json active emsg_id).0 ++ (build_moof active seq ++ build_mdat active)
