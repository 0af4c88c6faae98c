-- ===== src/Fmp4/Box/Find.antt =====
-- How the boxes that `makeBox` writes are found again.
use vrtc_sdk.Prelude.{
  ℕ, zero, suc, ◌+◌, ◌-◌, ◌/◌, ◌%◌, ◌^◌, ◌||◌, ◌<◌, ◌≡◌, refl, ap, sym, ◌∙◌, append-nil, true,
  false, Option, none, some, List, [], ◌∷◌, ◌++◌, arith,
}
use vrtc_sdk.Prelude.{
  length, take, drop, length-append, take-length_append, drop-length_append, ltb, if◌then◌else◌,
}
use vrtc_sdk.Prelude.Endian.{same_bytes}
use vrtc_sdk.Fmp4.Box.{make_box, make_full_box, split_box, find_loop, find_all}

-- Sizes.
pub length-make_box : (typ p : List ℕ) → length (make_box typ p) ≡ 4 + length typ + length p
unfolding make_box
length-make_box typ p = omega (arith, length-append typ p)

pub length-make_full_box :
    (typ : List ℕ) (v f : ℕ) (p : List ℕ)
    → length (make_full_box typ v f p) ≡ 8 + length typ + length p
unfolding make_full_box
length-make_full_box typ v f p =
    omega (arith, length-append typ (v % 256 ∷ f / 2 ^ 16 % 256 ∷ f / 2 ^ 8 % 256 ∷ f % 256 ∷ p))

-- The round of `findBox` on a box of `w` bytes.
open_box :
    (w : ℕ) (t p r : List ℕ)
    → w ≡ 8 + length p
    → if◌then◌else◌ {A = Option (List ℕ × List ℕ × List ℕ)}
        (ltb w 8 || ltb (8 + length (p ++ r)) w)
        none
        (some (t, take (w - 8) (p ++ r), drop (w - 8) (p ++ r)))
      ≡ some (t, p, r)
open_box w t p r e =
    let size : w - 8 ≡ length p = omega arith in
    let test : (ltb w 8 || ltb (8 + length (p ++ r)) w) ≡ false =
      ground (arith, length-append p r) in
    rw (test, size, take-length_append p r, drop-length_append p r)

-- The rounds of the loops on a box that was split.
module _ (b : List ℕ) {t p r : List ℕ} (typ : List ℕ) (split : split_box b ≡ some (t, p, r))
    (fuel : ℕ) where
  find_loop-stop : same_bytes t typ ≡ true → find_loop (suc fuel) b typ ≡ some p
  unfolding find_loop
  find_loop-stop e = ground arith

  find_loop-next : same_bytes t typ ≡ false → find_loop (suc fuel) b typ ≡ find_loop fuel r typ
  unfolding find_loop
  find_loop-next e = ground arith

  find_all-take : same_bytes t typ ≡ true → find_all (suc fuel) b typ ≡ p ∷ find_all fuel r typ
  unfolding find_all
  find_all-take e = ground arith

  find_all-next : same_bytes t typ ≡ false → find_all (suc fuel) b typ ≡ find_all fuel r typ
  unfolding find_all
  find_all-next e = ground arith

-- The first box of a list, which has the type `t` of four bytes.
module _ (a b c d : ℕ) (p r : List ℕ) (small : 8 + length p < 2 ^ 32) where
  pub split_box-make_box :
      split_box (make_box (a ∷ b ∷ c ∷ d ∷ []) p ++ r) ≡ some (a ∷ b ∷ c ∷ d ∷ [], p, r)
  unfolding make_box split_box
  split_box-make_box = open_box _ (a ∷ b ∷ c ∷ d ∷ []) p r (omega arith)

  pub find_loop-here :
      (fuel : ℕ)
      → same_bytes (a ∷ b ∷ c ∷ d ∷ []) (a ∷ b ∷ c ∷ d ∷ []) ≡ true
      → find_loop (suc fuel) (make_box (a ∷ b ∷ c ∷ d ∷ []) p ++ r) (a ∷ b ∷ c ∷ d ∷ []) ≡ some p
  find_loop-here fuel e = find_loop-stop _ _ split_box-make_box fuel e

  pub find_loop-skip :
      (fuel : ℕ) (typ : List ℕ)
      → same_bytes (a ∷ b ∷ c ∷ d ∷ []) typ ≡ false
      → find_loop (suc fuel) (make_box (a ∷ b ∷ c ∷ d ∷ []) p ++ r) typ ≡ find_loop fuel r typ
  find_loop-skip fuel typ e = find_loop-next _ typ split_box-make_box fuel e

  pub find_all-here :
      (fuel : ℕ) (typ : List ℕ)
      → same_bytes (a ∷ b ∷ c ∷ d ∷ []) typ ≡ true
      → find_all (suc fuel) (make_box (a ∷ b ∷ c ∷ d ∷ []) p ++ r) typ ≡ p ∷ find_all fuel r typ
  find_all-here fuel typ e = find_all-take _ typ split_box-make_box fuel e

  pub find_all-skip :
      (fuel : ℕ) (typ : List ℕ)
      → same_bytes (a ∷ b ∷ c ∷ d ∷ []) typ ≡ false
      → find_all (suc fuel) (make_box (a ∷ b ∷ c ∷ d ∷ []) p ++ r) typ ≡ find_all fuel r typ
  find_all-skip fuel typ e = find_all-next _ typ split_box-make_box fuel e

pub find_all-nil : (fuel : ℕ) (typ : List ℕ) → find_all fuel [] typ ≡ []
unfolding find_all split_box
find_all-nil zero typ = refl
find_all-nil (suc fuel) typ = refl

pub find_all-only :
    (a b c d : ℕ) (p : List ℕ) (fuel : ℕ) (typ : List ℕ)
    → 8 + length p < 2 ^ 32
    → same_bytes (a ∷ b ∷ c ∷ d ∷ []) typ ≡ true
    → find_all (suc fuel) (make_box (a ∷ b ∷ c ∷ d ∷ []) p) typ ≡ p ∷ []
find_all-only a b c d p fuel typ small e =
    ap (λ l. find_all (suc fuel) l typ) (sym (append-nil (make_box (a ∷ b ∷ c ∷ d ∷ []) p)))
    ∙ find_all-here a b c d p [] small fuel typ e
    ∙ ap (λ l. p ∷ l) (find_all-nil fuel typ)
