-- ===== src/Fmp4/Demuxer/Seek.antt =====
-- av/format/fmp4/demuxer.go: seeking. The file is the list of its bytes; a seek of the reader is a new
-- position, and one behind the end is found by the next read. No seek fails.
use vrtc_sdk.Prelude.{
  ℕ, zero, suc, ◌+◌, ◌-◌, Bool, true, false, not, ◌||◌, ◌&&◌, Option, none, some, ◌>>=◌, List, [],
  ◌∷◌,
}
use vrtc_sdk.Prelude.{ltb, ◌==◌, if◌then◌else◌, length, take, drop}
use vrtc_sdk.Prelude.Int.{ℤ, pos, ltb_ℤ}
use vrtc_sdk.Prelude.Endian.{codes, word32, get32, same_bytes}
use vrtc_sdk.Fmp4.Box.{find_box, find_boxes}
use vrtc_sdk.Fmp4.Moof.{TrackDef, find_def, parse_tfdt}
use vrtc_sdk.Fmp4.Mdat.{ticks_to_duration}
use vrtc_sdk.Fmp4.Demuxer.{Demuxer}
use vrtc_sdk.Fmp4.Sidx.{SidxEntry, parse_sidx}

-- The time of a traf, if its track is known and, with `video`, has pictures.
unfoldable pub traf_time : Bool → List TrackDef → List ℕ → Option ℤ
unfolding find_def parse_tfdt ticks_to_duration
traf_time video defs traf = do
  tfhd ← find_box traf (codes "tfhd")
  id ← get32 (drop 4 tfhd)
  track ← find_def id defs
  tfdt ← find_box traf (codes "tfdt")
  base ← parse_tfdt tfdt
  if video && not track.has_video then none else some (ticks_to_duration base track.timescale)

-- A loop of `moofBaseTime`.
unfoldable pub first_time : Bool → List TrackDef → List (List ℕ) → Option ℤ
unfolding traf_time
first_time video defs [] = none
first_time video defs (traf ∷ trafs) = elim (traf_time video defs traf) [
  | some t ↦ some t
  | none ↦ first_time video defs trafs
]

-- `moofBaseTime`.
unfoldable pub moof_base_time : List ℕ → List TrackDef → ℤ
unfolding first_time
moof_base_time moof defs =
    let trafs = find_boxes moof (codes "traf") in
    elim (first_time true defs trafs) [
      | some t ↦ t
      | none ↦ elim (first_time false defs trafs) [ some t ↦ t | none ↦ pos 0 ]
    ]

-- The header at the front of `r`: the size, the type and what follows.
unfoldable pub box_header : List ℕ → Option (ℕ × List ℕ × List ℕ)
box_header (s0 ∷ s1 ∷ s2 ∷ s3 ∷ t0 ∷ t1 ∷ t2 ∷ t3 ∷ r) =
    let size = word32 s0 s1 s2 s3 in
    if ltb size 8 then none else some (size, t0 ∷ t1 ∷ t2 ∷ t3 ∷ [], r)
box_header _ = none

-- The loop of `seekViaMoofScan`: `position` is that of `r` in the file, `best` the best one so far.
unfoldable pub scan_moofs : ℕ → List TrackDef → ℤ → List ℕ → ℕ → ℕ → ℕ
unfolding box_header moof_base_time
scan_moofs zero defs target r position best = best
scan_moofs (suc fuel) defs target r position best = elim (box_header r) [
  | none ↦ best
  | some (size, typ, after) ↦
      let next = drop (size - 8) after in
      let here = scan_moofs fuel defs target next (position + size) position in
      let later = scan_moofs fuel defs target next (position + size) best in
      if same_bytes typ (codes "moof")
      then (if ltb (length after) (size - 8)
            || ltb_ℤ target (moof_base_time (take (size - 8) after) defs)
          then best
          else here)
      else later
]

-- The loop of `loadSidx`; the entries that it leaves in the demuxer.
unfoldable pub find_sidx : ℕ → ℕ → List ℕ → List SidxEntry
unfolding box_header parse_sidx
find_sidx zero media_start r = []
find_sidx (suc fuel) media_start r = elim (box_header r) [
  | none ↦ []
  | some (size, typ, after) ↦
      let later = find_sidx fuel media_start (drop (size - 8) after) in
      if same_bytes typ (codes "sidx")
      then (if ltb (length after) (size - 8)
          then []
          else elim (parse_sidx (take (size - 8) after) (pos media_start)) [
            | none ↦ []
            | some es ↦ es
          ])
      else later
]

-- The loop of `seekViaSidx`: the last entry before the first one that is behind the target.
unfoldable pub best_entry : ℤ → SidxEntry → List SidxEntry → SidxEntry
best_entry target best [] = best
best_entry target best (e ∷ es) =
    let later = best_entry target e es in if ltb_ℤ target e.pts then best else later

-- `SeekToKeyframe`: the demuxer with the pending packets dropped, and the position that it goes to.
unfoldable pub seek_to_keyframe : List ℕ → ℤ → Demuxer → Demuxer × ℤ
unfolding find_sidx scan_moofs best_entry
seek_to_keyframe file target d =
    let media = drop d.media_start file in
    let sidx =
      if length d.sidx == 0 then find_sidx (suc (length media)) d.media_start media else d.sidx in
    let cleared = record d { pending = []; pending_emsg = []; sidx = sidx } in
    elim sidx [
      | e ∷ es ↦ (cleared, (best_entry target e (e ∷ es)).offset)
      | [] ↦ (
        cleared,
        pos (scan_moofs (suc (length media)) d.tracks target media d.media_start d.media_start),
      )
    ]
