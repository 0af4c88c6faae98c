-- ===== src/Pio/Vec/Tests.antt =====
-- Cutting two slices of three bytes.
use vrtc_sdk.Prelude.{ℕ, ◌≡◌, refl, arith, some, List, [], ◌∷◌, take, drop}
use vrtc_sdk.Prelude.Int.{pos, negsuc}
use vrtc_sdk.Pio.Vec.{
  vec_slice, vec_len, skip_loop, cut_loop, less, is_left, piece_size, start_of, end_of,
}
use vrtc_sdk.Pio.Vec.Cut.{vec_slice-flat, flat}

abbrev two_slices : List (List ℕ)
two_slices = (1 ∷ 2 ∷ 3 ∷ []) ∷ (4 ∷ 5 ∷ 6 ∷ []) ∷ []

middle : vec_slice two_slices (pos 1) (pos 5) ≡ some ((2 ∷ 3 ∷ []) ∷ (4 ∷ 5 ∷ []) ∷ [])
unfolding vec_slice skip_loop cut_loop less is_left piece_size start_of end_of
middle = refl

to_the_end : vec_slice two_slices (pos 3) (negsuc 0) ≡ some ((4 ∷ 5 ∷ 6 ∷ []) ∷ [])
unfolding vec_slice skip_loop cut_loop less is_left piece_size start_of end_of
to_the_end = refl

vec_slice-flat_example :
    (ps : List (List ℕ)) × (vec_slice two_slices (pos 1) (pos 5) ≡ some ps)
    × (flat ps ≡ take 4 (drop 1 (flat two_slices)))
vec_slice-flat_example = vec_slice-flat two_slices 1 5 (omega arith) (unfold vec_len in omega arith)
