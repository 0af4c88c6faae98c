-- ===== src/Fmp4/Moof/Traf.antt =====
-- How a trun and a traf are read again.
use vrtc_sdk.Prelude.{
  ℕ, ◌+◌, ◌*◌, ◌/◌, ◌%◌, ◌^◌, ◌<◌, ◌≡◌, refl, ap, ◌∙◌, Bool, true, false, Option, some, ◌>>=◌, List,
  [], ◌∷◌, arith,
}
use vrtc_sdk.Prelude.{length, All}
use vrtc_sdk.Prelude.Int.{
  ℤ, pos, add64, sub64, add64_pos, sub64_pos, to_int32, to_int32_pos, to_uint64, of_uint64,
  of_uint64-to_uint64, IsInt64,
}
use vrtc_sdk.Prelude.Endian.{put32, put64, word32, get64-put64}
use vrtc_sdk.Fmp4.Track.{Sample}
use vrtc_sdk.Fmp4.Fragment.{trun_entries, trun_flags, sizes_of}
use vrtc_sdk.Fmp4.Moof.{
  TrackDef, RawSample, read_field, read_offset, parse_samples, has_flag, parse_trun, parse_tfdt,
  parse_tfhd,
}
use vrtc_sdk.Fmp4.Moof.Samples.{raws_of, FitsSample, parse_samples-trun_entries, read_field-put32}

-- A trun, from its reads.
trun_step :
    (v f2 f1 f0 c3 c2 c1 c0 : ℕ) (r : List ℕ) (track : TrackDef) (dts base mdat : ℤ) (n flags : ℕ)
    (a b : ℕ × List ℕ) (off : ℤ) (result : List RawSample)
    → f2 * 2 ^ 16 + f1 * 2 ^ 8 + f0 ≡ flags
    → word32 c3 c2 c1 c0 ≡ n
    → read_field (has_flag flags 0x1) 0 r ≡ some a
    → read_field (has_flag flags 0x4) track.def_flags a.1 ≡ some b
    → sub64 (add64 base (to_int32 (pos a.0))) mdat ≡ off
    → parse_samples n flags track b.0 dts off b.1 ≡ some result
    → parse_trun (v ∷ f2 ∷ f1 ∷ f0 ∷ c3 ∷ c2 ∷ c1 ∷ c0 ∷ r) track dts base mdat ≡ some result
unfolding parse_trun
trun_step v f2 f1 f0 c3 c2 c1 c0 r track dts base mdat n flags a b off result hf hn ha hb ho hp =
    rw (hf, hn, ha, hb, ho, hp)

offset_lem :
    (start size off : ℕ)
    → size + 8 + off < 2 ^ 31
    → start < 2 ^ 62
    → sub64 (add64 (pos start) (to_int32 (pos (size + 8 + off)))) (pos (start + size + 8)) ≡ pos off
offset_lem start size off h k =
    rw
      (
        to_int32_pos (size + 8 + off) h,
        add64_pos start (size + 8 + off) (omega arith),
        sub64_pos (start + (size + 8 + off)) (start + size + 8) (omega arith) (omega arith),
      )
      (ap pos (omega arith))

-- The payload of the trun of `s`.
unfoldable pub trun_payload : Bool → ℕ → List Sample → List ℕ
trun_payload video offset s =
    1
    ∷ trun_flags video / 2 ^ 16 % 256
    ∷ trun_flags video / 2 ^ 8 % 256
    ∷ trun_flags video % 256
    ∷ put32 (length s) (put32 offset (trun_entries video s))

-- The data offset `offset` counts from the start of the moof to the media of the trun, which is `off`
-- bytes behind the header of the mdat.
pub parse_trun-trun_payload :
    (track : TrackDef) (video : Bool) (s : List Sample) (dts : ℤ) (start size off : ℕ)
    → track.def_flags ≡ 0
    → All FitsSample s
    → length s < 2 ^ 32
    → size + 8 + off + sizes_of s < 2 ^ 31
    → start < 2 ^ 62
    → parse_trun
        (trun_payload video (size + 8 + off) s)
        track
        dts
        (pos start)
        (pos (start + size + 8))
      ≡ some (raws_of track.id video dts off s)
unfolding trun_payload trun_flags read_field
parse_trun-trun_payload track true s dts start size off e f n h k =
    trun_step 1 _ _ _ _ _ _ _ _ track dts _ _ (length s) 0xf01 (size + 8 + off, trun_entries true s)
      (track.def_flags, trun_entries true s) (pos off) (raws_of track.id true dts off s) refl
      (omega arith) (read_field-put32 0 (size + 8 + off) (trun_entries true s) (omega arith)) refl
      (offset_lem start size off (omega arith) k)
      (parse_samples-trun_entries track true s track.def_flags dts off e e f (omega arith))
parse_trun-trun_payload track false s dts start size off e f n h k =
    trun_step 1 _ _ _ _ _ _ _ _ track dts _ _ (length s) 0x301
      (size + 8 + off, trun_entries false s) (track.def_flags, trun_entries false s) (pos off)
      (raws_of track.id false dts off s) refl (omega arith)
      (read_field-put32 0 (size + 8 + off) (trun_entries false s) (omega arith)) refl
      (offset_lem start size off (omega arith) k)
      (parse_samples-trun_entries track false s track.def_flags dts off e e f (omega arith))

-- The payloads of a tfdt and of a tfhd.
unfoldable pub tfdt_payload : ℤ → List ℕ
tfdt_payload base = 1 ∷ 0 ∷ 0 ∷ 0 ∷ put64 (to_uint64 base) []

pub parse_tfdt-tfdt_payload : (base : ℤ) → IsInt64 base → parse_tfdt (tfdt_payload base) ≡ some base
unfolding tfdt_payload parse_tfdt
parse_tfdt-tfdt_payload base h =
    let w = of_uint64-to_uint64 base h in
    let f : ℕ → Option ℤ = λ t. some (of_uint64 t) in
    ap (λ o. o >>= f) (get64-put64 (to_uint64 base) [] w.1) ∙ ap some w.0

unfoldable pub tfhd_payload : ℕ → List ℕ
tfhd_payload id = 0 ∷ 2 ∷ 0 ∷ 0 ∷ put32 id []

pub parse_tfhd-tfhd_payload :
    (id : ℕ) (start : ℤ)
    → id < 2 ^ 32
    → parse_tfhd (tfhd_payload id) start
      ≡ some (record {
        track_id = id;
        flags = 0x020000;
        base_data_offset = start;
        def_duration = 0;
        def_size = 0;
        def_flags = 0;
      })
unfolding tfhd_payload parse_tfhd read_offset read_field
parse_tfhd-tfhd_payload id start h =
    let e : word32 (id / 2 ^ 24 % 256) (id / 2 ^ 16 % 256) (id / 2 ^ 8 % 256) (id % 256) ≡ id =
      omega arith in
    rw e
