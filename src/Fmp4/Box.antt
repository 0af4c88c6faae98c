-- ===== src/Fmp4/Box.antt =====
-- ISO BMFF boxes: the writing primitives of av/format/fmp4/muxer.go, and how demuxer.go finds boxes.
-- A buffer that is written to is the list of what is written; the type of a box is its four letters.

pub mod Find
use vrtc_sdk.Prelude.{
  ℕ, zero, suc, ◌+◌, ◌-◌, ◌*◌, ◌/◌, ◌%◌, ◌^◌, Bool, true, false, ◌||◌, Option, none, some, List, [],
  ◌∷◌, ◌++◌,
}
use vrtc_sdk.Prelude.{ltb, if◌then◌else◌, length, take, drop}
use vrtc_sdk.Prelude.Endian.{put16, put32, get32, same_bytes}

-- `makeBox`.
unfoldable pub make_box : List ℕ → List ℕ → List ℕ
make_box typ payload = put32 (8 + length payload) (typ ++ payload)

-- `makeFullBox`.
unfoldable pub make_full_box : List ℕ → ℕ → ℕ → List ℕ → List ℕ
unfolding make_box
make_full_box typ version flags payload =
    make_box typ
      (version % 256 ∷ flags / 2 ^ 16 % 256 ∷ flags / 2 ^ 8 % 256 ∷ flags % 256 ∷ payload)

-- `writeZeros`, before a list.
abbrev pub zeros : ℕ → List ℕ → List ℕ
zeros zero r = r
zeros (suc n) r = 0 ∷ zeros n r

-- One round of `findBox`: the type, the payload and the rest, if there is a whole box.
unfoldable pub split_box : List ℕ → Option (List ℕ × List ℕ × List ℕ)
split_box (s0 ∷ s1 ∷ s2 ∷ s3 ∷ t0 ∷ t1 ∷ t2 ∷ t3 ∷ r) = elim (get32 (s0 ∷ s1 ∷ s2 ∷ s3 ∷ [])) [
  | none ↦ none
  | some size ↦
      if ltb size 8 || ltb (8 + length r) size
      then none
      else some (t0 ∷ t1 ∷ t2 ∷ t3 ∷ [], take (size - 8) r, drop (size - 8) r)
]
split_box _ = none

-- `findBox`; each round takes eight bytes or more.
unfoldable pub find_loop : ℕ → List ℕ → List ℕ → Option (List ℕ)
find_loop zero b typ = none
find_loop (suc fuel) b typ = elim (split_box b) [
  | none ↦ none
  | some (t, payload, rest) ↦
      let later = find_loop fuel rest typ in if same_bytes t typ then some payload else later
]

unfoldable pub find_box : List ℕ → List ℕ → Option (List ℕ)
find_box b typ = find_loop (length b) b typ

-- `findBoxes`.
unfoldable pub find_all : ℕ → List ℕ → List ℕ → List (List ℕ)
find_all zero b typ = []
find_all (suc fuel) b typ = elim (split_box b) [
  | none ↦ []
  | some (t, payload, rest) ↦
      let later = find_all fuel rest typ in if same_bytes t typ then payload ∷ later else later
]

unfoldable pub find_boxes : List ℕ → List ℕ → List (List ℕ)
find_boxes b typ = find_all (length b) b typ
