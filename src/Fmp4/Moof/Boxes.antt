-- ===== src/Fmp4/Moof/Boxes.antt =====
-- How the boxes of a traf are found.
use vrtc_sdk.Prelude.{ℕ, ◌+◌, ◌^◌, ◌<◌, ◌≡◌, refl, ◌∙◌, some, List, [], ◌∷◌, ◌++◌, arith}
use vrtc_sdk.Prelude.{length}
use vrtc_sdk.Prelude.Endian.{codes}
use vrtc_sdk.Fmp4.Track.{Track}
use vrtc_sdk.Fmp4.Box.{make_box, make_full_box, find_box, find_boxes}
use vrtc_sdk.Fmp4.Box.Find.{find_loop-here, find_loop-skip, find_all-only, find_all-skip}
use vrtc_sdk.Fmp4.Fragment.{build_tfhd, build_tfdt, build_trun}
use vrtc_sdk.Fmp4.Fragment.Size.{traf_size, length-trun_entries}
use vrtc_sdk.Fmp4.Moof.Traf.{trun_payload, tfdt_payload, tfhd_payload}

-- What is in the traf of a track.
unfoldable pub traf_payload : Track → ℕ → List ℕ
traf_payload t offset = build_tfhd t.id ++ (build_tfdt t.base_time ++ build_trun t offset)

module _ (t : Track) (offset : ℕ) where
  pub find_box-tfhd : find_box (traf_payload t offset) (codes "tfhd") ≡ some (tfhd_payload t.id)
  unfolding find_box traf_payload build_tfhd tfhd_payload make_full_box make_box
  find_box-tfhd =
      find_loop-here 116 102 104 100 (tfhd_payload t.id)
        (build_tfdt t.base_time ++ build_trun t offset) (omega arith) _ refl

  pub find_box-tfdt :
      find_box (traf_payload t offset) (codes "tfdt") ≡ some (tfdt_payload t.base_time)
  unfolding find_box traf_payload build_tfhd build_tfdt tfdt_payload make_full_box make_box
      tfhd_payload
  find_box-tfdt =
      find_loop-skip 116 102 104 100 (tfhd_payload t.id)
        (build_tfdt t.base_time ++ build_trun t offset) (omega arith) _ (codes "tfdt") refl
      ∙ find_loop-here 116 102 100 116 (tfdt_payload t.base_time) (build_trun t offset)
          (omega arith) _ refl

  length-trun_payload : length (trun_payload t.has_video offset t.samples) + 52 ≡ traf_size t
  unfolding trun_payload traf_size
  length-trun_payload = omega (arith, length-trun_entries t.has_video t.samples)

  pub find_boxes-trun :
      traf_size t < 2 ^ 32
      → find_boxes (traf_payload t offset) (codes "trun")
        ≡ trun_payload t.has_video offset t.samples ∷ []
  unfolding find_boxes traf_payload build_tfhd build_tfdt build_trun trun_payload make_full_box
      make_box tfhd_payload tfdt_payload
  find_boxes-trun h =
      let size : 8 + length (trun_payload t.has_video offset t.samples) < 2 ^ 32 =
        omega (arith, length-trun_payload) in
      find_all-skip 116 102 104 100 (tfhd_payload t.id)
        (build_tfdt t.base_time ++ build_trun t offset) (omega arith) _ (codes "trun") refl
      ∙ find_all-skip 116 102 100 116 (tfdt_payload t.base_time) (build_trun t offset) (omega arith)
          _ (codes "trun") refl
      ∙ find_all-only 116 114 117 110 (trun_payload t.has_video offset t.samples) _ (codes "trun")
          size refl
