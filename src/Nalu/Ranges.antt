-- ===== src/Nalu/Ranges.antt =====
-- The positions and ranges that the scans for start codes give.
use vrtc_sdk.Prelude.{ℕ, zero, suc, ◌+◌, ◌-◌, ◌≤◌, ◌<◌, ◌≡◌, ap, sym, ◌∙◌, arith}
use vrtc_sdk.Prelude.{
  none, some, Option, List, [], ◌∷◌, length, drop, inl, inr, Option-cases, length-drop, drop-add,
  if◌then◌else◌, ltb, Bool-cases,
}
use vrtc_sdk.Nalu.{
  find_next_annexb_nal_unit, find_code, len_start_code, has_annexb_start_code, nalu_indices,
  is_code4, is_code3,
}

-- A range of the slice that ends past an offset.
abbrev pub InSlice : List ℕ → ℕ → ℕ → ℕ → Type 0
InSlice b offset start end = (offset < end) × (start ≤ end) × (end ≤ length b)

-- The same of a range that may be missing.
abbrev pub FoundInSlice : List ℕ → ℕ → Option (ℕ × ℕ) → Type 0
FoundInSlice b offset none = Unit
FoundInSlice b offset (some (start, end)) = InSlice b offset start end

-- Positions from one number to another, in order.
abbrev pub Ascending : ℕ → ℕ → List ℕ → Type 0
Ascending lo hi [] = lo ≤ hi
Ascending lo hi (i ∷ is) = (lo ≤ i) × Ascending i hi is

len_start_code-le : (b : List ℕ) → len_start_code b ≤ length b
unfolding len_start_code
len_start_code-le b = ground arith

-- What a scan returns is not before its start, and a start code stands there whole.
find_code_bounds :
    (r : List ℕ) (i j : ℕ)
    → find_code r i ≡ some j
    → let n = len_start_code (drop (j - i) r) in (i ≤ j) × (0 < n) × (j + n ≤ i + length r)
unfolding find_code has_annexb_start_code
find_code_bounds [] i j e = cc
find_code_bounds (x ∷ r) i j e = elim (Bool-cases (has_annexb_start_code (x ∷ r))) [
  | inl here ↦
      let same : i ≡ j = ground arith in
      rw (← same, self i) (omega arith, ground arith, omega (arith, len_start_code-le (x ∷ r)))
  | inr not_here ↦
      (let b = find_code_bounds r (i + 1) j (ground arith) in
        let s : j - i ≡ suc (j - (i + 1)) = omega (arith, b.0) in
        rw s (omega (arith, b.0), b.1, omega (arith, b.2)))
]
  where
    self : (n : ℕ) → n - n ≡ 0
    self n = omega arith

-- The same for a scan of a slice from an offset on.
code_bounds :
    (b : List ℕ) (offset i : ℕ)
    → find_code (drop offset b) offset ≡ some i
    → let n = len_start_code (drop i b) in (offset ≤ i) × (0 < n) × (i + n ≤ length b)
code_bounds b offset i hit =
    let (le, pos, end) = find_code_bounds (drop offset b) offset i hit in
    let at : offset + (i - offset) ≡ i = omega (arith, le) in
    let there : drop i b ≡ drop (i - offset) (drop offset b) =
      ap (λ k. drop k b) (sym at) ∙ drop-add offset (i - offset) b in
    rw there (le, pos, omega (arith, le, pos, end, length-drop offset b))

pub find_next-InSlice :
    (b : List ℕ) (offset start end : ℕ)
    → find_next_annexb_nal_unit b offset ≡ some (start, end)
    → InSlice b offset start end
unfolding find_next_annexb_nal_unit
find_next-InSlice b offset start end e = elim (Option-cases (find_code (drop offset b) offset)) [
  | inl miss ↦ absurd (cc (rw miss at e))
  | inr (i, hit) ↦
      let nal_start = i + len_start_code (drop i b) in
      let (le, pos, in_) = code_bounds b offset i hit in
      elim (Option-cases (find_code (drop nal_start b) nal_start)) [
        | inl last ↦ ground arith
        | inr (j, again) ↦ ground (arith, code_bounds b nal_start j again)
      ]
]

Ascending-weaken :
    (lo lo' hi hi' : ℕ) (is : List ℕ)
    → lo ≤ lo'
    → hi' ≤ hi
    → Ascending lo' hi' is
    → Ascending lo hi is
Ascending-weaken lo lo' hi hi' [] le ge h = omega (arith, h)
Ascending-weaken lo lo' hi hi' (i ∷ is) le ge h =
    (omega (arith, h.0), Ascending-weaken i i hi hi' is (omega arith) ge h.1)

nalu_indices_from-Ascending :
    (r : List ℕ) (i skip : ℕ) → Ascending i (i + length r) (nalu_indices r i skip)
unfolding nalu_indices
nalu_indices_from-Ascending [] i skip = omega arith
nalu_indices_from-Ascending (x ∷ r) i (suc k) =
    Ascending-weaken i (i + 1) (i + suc (length r)) (i + 1 + length r) _ (omega arith) (omega arith)
      (nalu_indices_from-Ascending r (i + 1) k)
nalu_indices_from-Ascending (x ∷ r) i zero =
    let sc_len : ℕ = if is_code4 (x ∷ r) then 4 else if is_code3 (x ∷ r) then 3 else 0 in
    let rest =
      Ascending-weaken i (i + 1) (i + suc (length r)) (i + 1 + length r) _ (omega arith)
        (omega arith) (nalu_indices_from-Ascending r (i + 1) (sc_len - 1)) in
    elim (Bool-cases (ltb 0 sc_len)) [
      | inl here ↦ rw here (omega arith, rest)
      | inr not_here ↦ rw not_here rest
    ]

pub nalu_indices-Ascending : (b : List ℕ) → Ascending 0 (length b) (nalu_indices b 0 0)
nalu_indices-Ascending b =
    Ascending-weaken 0 0 (length b) (0 + length b) _ (omega arith) (omega arith)
      (nalu_indices_from-Ascending b 0 0)

pub find_next-FoundInSlice :
    (b : List ℕ) (offset : ℕ) → FoundInSlice b offset (find_next_annexb_nal_unit b offset)
find_next-FoundInSlice b offset = elim (Option-cases (find_next_annexb_nal_unit b offset)) [
  | inl miss ↦ rw miss tt
  | inr ((start, end), hit) ↦ rw hit (find_next-InSlice b offset start end hit)
]
