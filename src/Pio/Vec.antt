-- ===== src/Pio/Vec.antt =====
-- av/utils/bits/pio/vec.go: cutting a sequence of byte slices.
-- `none` is a panic. `VecSliceTo` writes into a slice of its caller, and `VecSlice` gives it one that is
-- long enough; here the pieces are the result. A negative end stays negative in the loops and is `none`.
pub mod Cut
mod Tests
use vrtc_sdk.Prelude.{
  ℕ, zero, suc, ◌+◌, ◌-◌, min, Bool, true, ◌&&◌, Option, none, some, ◌>>=◌, List, [], ◌∷◌,
}
use vrtc_sdk.Prelude.{ltb, ◌==◌, if◌then◌else◌, length, take, drop}
use vrtc_sdk.Prelude.Int.{ℤ, pos, negsuc}

pub vec_len : List (List ℕ) → ℕ
vec_len [] = 0
vec_len (b ∷ bs) = length b + vec_len bs

pub less : Option ℕ → ℕ → Option ℕ
less none n = none
less (some e) n = some (e - n)

-- The loop that looks for the start: the slices left, the offset into the first, and the end left. A
-- round that does not use up its slice has used up the start, and the loop is over.
pub skip_loop : List (List ℕ) → ℕ → Option ℕ → Option (List (List ℕ) × ℕ × Option ℕ)
skip_loop [] s e = if ltb 0 s then none else some ([], 0, e)
skip_loop (v ∷ vs) s e =
    let read = min (length v) s in
    let next = skip_loop vs (s - read) (less e read) in
    if s == 0
    then some (v ∷ vs, 0, e)
    else if length v - read == 0
    then next
    else some (v ∷ vs, read, less e read)

pub is_left : Option ℕ → Bool
is_left none = true
is_left (some e) = ltb 0 e

-- The length of the next piece, out of `left` bytes.
pub piece_size : Option ℕ → ℕ → ℕ
piece_size none left = left
piece_size (some e) left = if ltb 0 e && ltb e left then e else left

-- The loop that cuts the pieces. A round that does not use up its slice has used up the end.
pub cut_loop : List (List ℕ) → ℕ → Option ℕ → Option (List (List ℕ))
cut_loop [] off e = elim e [ none ↦ some [] | some n ↦ if ltb 0 n then none else some [] ]
cut_loop (v ∷ vs) off e =
    let left = length v - off in
    let read = piece_size e left in
    let piece = take read (drop off v) in
    let next = cut_loop vs 0 (less e read) >>= λ ps. some (piece ∷ ps) in
    if is_left e then (if left - read == 0 then next else some (piece ∷ [])) else some []

pub start_of : ℤ → ℕ
start_of (pos n) = n
start_of (negsuc n) = 0

pub end_of : ℤ → Option ℕ
end_of (pos n) = some n
end_of (negsuc n) = none

pub vec_slice : List (List ℕ) → ℤ → ℤ → Option (List (List ℕ))
vec_slice vec s e =
    let start = start_of s in
    let found = skip_loop vec start (end_of e) >>= λ (rest, off, left). cut_loop rest off left in
    elim (end_of e) [ none ↦ found | some n ↦ if ltb n start then none else found ]
