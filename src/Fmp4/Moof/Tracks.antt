-- ===== src/Fmp4/Moof/Tracks.antt =====
-- How the trafs of a moof are read again.
use vrtc_sdk.Prelude.{
  ℕ, zero, suc, ◌+◌, ◌%◌, ◌^◌, ◌≤◌, ◌<◌, ◌≡◌, refl, ap, sym, ◌∙◌, Option, some, List, [], ◌∷◌, ◌++◌,
  arith, append-nil,
}
use vrtc_sdk.Prelude.{length, All}
use vrtc_sdk.Prelude.Int.{ℤ, pos, add64, add64_pos, IsInt64}
use vrtc_sdk.Prelude.Endian.{codes, put32}
use vrtc_sdk.Fmp4.Track.{Track}
use vrtc_sdk.Fmp4.Box.{make_box, make_full_box, find_box, find_boxes, find_all}
use vrtc_sdk.Fmp4.Box.Find.{length-make_box, find_all-here, find_all-skip, find_all-nil}
use vrtc_sdk.Fmp4.Fragment.{
  sizes_of, trafs_size, estimate_moof_size, build_mfhd, build_traf, build_trafs,
}
use vrtc_sdk.Fmp4.Fragment.Size.{traf_size, length-build_traf, length-build_trafs}
use vrtc_sdk.Fmp4.Moof.{
  TrackDef, RawSample, TfhdResult, find_def, put_def, take_defaults, parse_truns, traf_samples,
  parse_traf, parse_trafs, parse_moof, parse_trun, parse_tfdt, parse_tfhd,
}
use vrtc_sdk.Fmp4.Moof.Samples.{raws_of, FitsSample}
use vrtc_sdk.Fmp4.Moof.Traf.{
  trun_payload, tfdt_payload, tfhd_payload, parse_trun-trun_payload, parse_tfdt-tfdt_payload,
  parse_tfhd-tfhd_payload,
}
use vrtc_sdk.Fmp4.Moof.Boxes.{traf_payload, find_box-tfhd, find_box-tfdt, find_boxes-trun}

-- What the demuxer knows of a track: it was declared with the id, and has no sample flags of its own.
abbrev pub IsDeclared : List TrackDef → Track → Type 0
IsDeclared defs t =
    (d : TrackDef) × (find_def t.id defs ≡ some d) × (d.id ≡ t.id) × (d.def_flags ≡ 0)

put_def-same :
    (id : ℕ) (defs : List TrackDef) (d : TrackDef)
    → d.id ≡ id
    → find_def id defs ≡ some d
    → put_def d defs ≡ defs
unfolding find_def put_def
put_def-same id [] d k h = ground arith
put_def-same id (e ∷ es) d k h = ground (arith, put_def-same id es d k)

abbrev pub FitsTrack : Track → Type 0
FitsTrack t =
    (t.id < 2 ^ 32) × IsInt64 t.base_time × All FitsSample t.samples × (length t.samples < 2 ^ 32)

-- A traf with a tfdt and one trun, from what is read of it.
traf_step :
    (traf tfdt trun : List ℕ) (res : TfhdResult) (d : TrackDef) (mdat base : ℤ) (l : List RawSample)
    → find_box traf (codes "tfdt") ≡ some tfdt
    → find_boxes traf (codes "trun") ≡ trun ∷ []
    → parse_tfdt tfdt ≡ some base
    → parse_trun trun d base res.base_data_offset mdat ≡ some l
    → traf_samples traf res d mdat ≡ some l
unfolding traf_samples parse_truns
traf_step traf tfdt trun res d mdat base l h k e f = ground (arith, append-nil l)

-- A traf of a declared track, whose tfhd has no defaults.
traf_found :
    (defs : List TrackDef) (traf tfhd : List ℕ) (res : TfhdResult) (d : TrackDef) (start mdat : ℤ)
    (l : List RawSample)
    → find_box traf (codes "tfhd") ≡ some tfhd
    → parse_tfhd tfhd start ≡ some res
    → find_def res.track_id defs ≡ some d
    → take_defaults res d ≡ d
    → put_def d defs ≡ defs
    → traf_samples traf res d mdat ≡ some l
    → parse_traf defs traf start mdat ≡ (defs, some l)
unfolding parse_traf
traf_found defs traf tfhd res d start mdat l h e k a b f = ground arith

module _ (t : Track) (d : TrackDef) (start size off : ℕ) where
  res : TfhdResult
  res = record {
    track_id = t.id;
    flags = 0x020000;
    base_data_offset = pos start;
    def_duration = 0;
    def_size = 0;
    def_flags = 0;
  }

  traf_samples-traf_payload :
      FitsTrack t
      → d.def_flags ≡ 0
      → size + 8 + off + sizes_of t.samples < 2 ^ 31
      → traf_size t < 2 ^ 32
      → start < 2 ^ 62
      → traf_samples (traf_payload t (size + 8 + off)) res d (pos (start + size + 8))
        ≡ some (raws_of d.id t.has_video t.base_time off t.samples)
  unfolding res
  traf_samples-traf_payload f e h k l =
      traf_step (traf_payload t (size + 8 + off)) (tfdt_payload t.base_time)
        (trun_payload t.has_video (size + 8 + off) t.samples) res d (pos (start + size + 8))
        t.base_time (raws_of d.id t.has_video t.base_time off t.samples)
        (find_box-tfdt t (size + 8 + off)) (find_boxes-trun t (size + 8 + off) k)
        (parse_tfdt-tfdt_payload t.base_time f.1)
        (parse_trun-trun_payload d t.has_video t.samples t.base_time start size off e f.2 f.3 h l)

  parse_traf-traf_payload :
      (defs : List TrackDef)
      → FitsTrack t
      → find_def t.id defs ≡ some d
      → d.id ≡ t.id
      → d.def_flags ≡ 0
      → size + 8 + off + sizes_of t.samples < 2 ^ 31
      → traf_size t < 2 ^ 32
      → start < 2 ^ 62
      → parse_traf defs (traf_payload t (size + 8 + off)) (pos start) (pos (start + size + 8))
        ≡ (defs, some (raws_of t.id t.has_video t.base_time off t.samples))
  unfolding res take_defaults
  parse_traf-traf_payload defs f a b c h k l =
      traf_found defs (traf_payload t (size + 8 + off)) (tfhd_payload t.id) res d (pos start)
        (pos (start + size + 8)) (raws_of t.id t.has_video t.base_time off t.samples)
        (find_box-tfhd t (size + 8 + off)) (parse_tfhd-tfhd_payload t.id (pos start) f.0) a refl
        (put_def-same t.id defs d b a)
        (traf_samples-traf_payload f c h k l
          ∙ ap (λ id. some (raws_of id t.has_video t.base_time off t.samples)) b)

-- What is read of the tracks, from the `off`th byte of the media on.
unfoldable pub raws : ℕ → List Track → List RawSample
raws off [] = []
raws off (t ∷ ts) =
    raws_of t.id t.has_video t.base_time off t.samples ++ raws (off + sizes_of t.samples) ts

unfoldable pub media_size : List Track → ℕ
media_size [] = 0
media_size (t ∷ ts) = sizes_of t.samples + media_size ts

unfoldable traf_payloads : List Track → ℕ → List (List ℕ)
traf_payloads [] offset = []
traf_payloads (t ∷ ts) offset =
    traf_payload t offset ∷ traf_payloads ts (offset + sizes_of t.samples)

length-traf_payload : (t : Track) (offset : ℕ) → 8 + length (traf_payload t offset) ≡ traf_size t
unfolding traf_payload build_traf
length-traf_payload t offset =
    sym (length-make_box (codes "traf") (traf_payload t offset)) ∙ length-build_traf t offset

find_all-build_trafs :
    (ts : List Track) (offset fuel : ℕ)
    → offset + media_size ts < 2 ^ 32
    → trafs_size ts < 2 ^ 32
    → length ts ≤ fuel
    → find_all fuel (build_trafs ts offset) (codes "traf") ≡ traf_payloads ts offset
unfolding build_trafs build_traf traf_payload traf_payloads media_size trafs_size traf_size
find_all-build_trafs [] offset fuel h k l = find_all-nil fuel (codes "traf")
find_all-build_trafs (t ∷ ts) offset zero h k l = absurd (omega arith)
find_all-build_trafs (t ∷ ts) offset (suc fuel) h k l =
    let e : offset % 2 ^ 32 ≡ offset = omega arith in
    let size : 8 + length (traf_payload t offset) < 2 ^ 32 =
      omega (arith, length-traf_payload t offset) in
    ap
      (λ o.
        find_all (suc fuel) (build_traf t o ++ build_trafs ts (offset + sizes_of t.samples))
          (codes "traf"))
      e
    ∙ find_all-here 116 114 97 102 (traf_payload t offset)
        (build_trafs ts (offset + sizes_of t.samples)) size fuel (codes "traf") refl
    ∙ ap (λ l. traf_payload t offset ∷ l)
        (find_all-build_trafs ts (offset + sizes_of t.samples) fuel (omega arith) (omega arith)
          (omega arith))

trafs_step :
    (defs : List TrackDef) (traf : List ℕ) (trafs : List (List ℕ)) (start mdat : ℤ)
    (s r : List RawSample)
    → parse_traf defs traf start mdat ≡ (defs, some s)
    → parse_trafs defs trafs start mdat ≡ (defs, some r)
    → parse_trafs defs (traf ∷ trafs) start mdat ≡ (defs, some (s ++ r))
unfolding parse_trafs
trafs_step defs traf trafs start mdat s r h k = ground arith

parse_trafs-build_trafs :
    (defs : List TrackDef) (ts : List Track) (start size off : ℕ)
    → All FitsTrack ts
    → All (IsDeclared defs) ts
    → size + 8 + off + media_size ts < 2 ^ 31
    → trafs_size ts < 2 ^ 32
    → start < 2 ^ 62
    → parse_trafs defs (traf_payloads ts (size + 8 + off)) (pos start) (pos (start + size + 8))
      ≡ (defs, some (raws off ts))
unfolding parse_trafs traf_payloads raws media_size trafs_size traf_size
parse_trafs-build_trafs defs [] start size off f a h k l = refl
parse_trafs-build_trafs defs (t ∷ ts) start size off f a h k l =
    let here =
      parse_traf-traf_payload t a.0.0 start size off defs f.0 a.0.1 a.0.2 a.0.3 (omega arith)
        (omega arith) l in
    let later =
      parse_trafs-build_trafs defs ts start size (off + sizes_of t.samples) f.1 a.1 (omega arith)
        (omega arith) l in
    let next : size + 8 + off + sizes_of t.samples ≡ size + 8 + (off + sizes_of t.samples) =
      omega arith in
    trafs_step defs (traf_payload t (size + 8 + off)) _ (pos start) (pos (start + size + 8)) _ _
      here
      (ap (λ o. parse_trafs defs (traf_payloads ts o) (pos start) (pos (start + size + 8))) next
        ∙ later)

-- The payload of the moof of some tracks.
unfoldable pub moof_payload : List Track → ℕ → List ℕ
moof_payload active seq = build_mfhd seq ++ build_trafs active (estimate_moof_size active + 8)

length-trafs : (ts : List Track) → length ts ≤ trafs_size ts
unfolding trafs_size
length-trafs [] = omega arith
length-trafs (t ∷ ts) = omega (arith, length-trafs ts)

find_boxes-moof_payload :
    (active : List Track) (seq : ℕ)
    → 24 + trafs_size active + 8 + media_size active < 2 ^ 31
    → find_boxes (moof_payload active seq) (codes "traf")
      ≡ traf_payloads active (estimate_moof_size active + 8)
unfolding moof_payload build_mfhd make_full_box make_box find_boxes estimate_moof_size
find_boxes-moof_payload active seq h =
    let offset = estimate_moof_size active + 8 in
    find_all-skip 109 102 104 100 (0 ∷ 0 ∷ 0 ∷ 0 ∷ put32 seq []) (build_trafs active offset)
      (omega arith) _ (codes "traf") refl
    ∙ find_all-build_trafs active offset _ (omega arith) (omega arith)
        (omega (arith, length-trafs active, length-build_trafs active offset))

moof_step :
    (defs : List TrackDef) (payload : List ℕ) (trafs : List (List ℕ)) (start size mdat : ℤ)
    (result : List TrackDef × Option (List RawSample))
    → find_boxes payload (codes "traf") ≡ trafs
    → add64 (add64 start size) (pos 8) ≡ mdat
    → parse_trafs defs trafs start mdat ≡ result
    → parse_moof defs payload start size ≡ result
unfolding parse_moof
moof_step defs payload trafs start size mdat result h k e = rw (h, k, e)

pub parse_moof-moof_payload :
    (defs : List TrackDef) (active : List Track) (seq start : ℕ)
    → All FitsTrack active
    → All (IsDeclared defs) active
    → 24 + trafs_size active + 8 + media_size active < 2 ^ 31
    → start < 2 ^ 62
    → parse_moof defs (moof_payload active seq) (pos start) (pos (estimate_moof_size active))
      ≡ (defs, some (raws 0 active))
unfolding estimate_moof_size
parse_moof-moof_payload defs active seq start f a h k =
    let size = estimate_moof_size active in
    let mdat : add64 (add64 (pos start) (pos size)) (pos 8) ≡ pos (start + size + 8) =
      ap (λ n. add64 n (pos 8)) (add64_pos start size (omega arith))
      ∙ add64_pos (start + size) 8 (omega arith) in
    let zero_off : size + 8 + 0 ≡ size + 8 = omega arith in
    moof_step defs (moof_payload active seq) _ (pos start) (pos size) _ _
      (find_boxes-moof_payload active seq h ∙ ap (traf_payloads active) (sym zero_off)) mdat
      (parse_trafs-build_trafs defs active start size 0 f a (omega arith) (omega arith) k)
