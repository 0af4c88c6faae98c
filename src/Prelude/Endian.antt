-- ===== src/Prelude/Endian.antt =====
-- Go's `binary.BigEndian` on byte lists: the writers put a word before a list, the readers read the
-- front of one. With them `codes`, the bytes of an ASCII text.
use Prim.Native.Nat.{ℕ, ◌+◌, ◌*◌, ◌/◌, ◌%◌, ◌^◌, ◌<◌}
use Prim.Native.Char.{code}
use Prim.Native.String.{String}
use mathlib.Core.Path.{◌≡◌, ap}
use mathlib.Core.List.{List, [], ◌∷◌}
use mathlib.Core.Option.{Option, none, some}
use mathlib.Core.Bool.{Bool, true, false, ◌&&◌}
use native.Mathlib.Omega.{arith}
use vrtc_sdk.Prelude.Tests.{◌==◌}

abbrev pub codes : String → List ℕ
codes String.[] = []
codes (String.◌∷◌ c s) = code c ∷ codes s

-- Equality of byte strings.
abbrev pub same_bytes : List ℕ → List ℕ → Bool
same_bytes [] [] = true
same_bytes (x ∷ xs) (y ∷ ys) = x == y && same_bytes xs ys
same_bytes [] (y ∷ ys) = false
same_bytes (x ∷ xs) [] = false

abbrev pub put16 : ℕ → List ℕ → List ℕ
put16 v r = v / 2 ^ 8 % 256 ∷ v % 256 ∷ r

abbrev pub put24 : ℕ → List ℕ → List ℕ
put24 v r = v / 2 ^ 16 % 256 ∷ put16 v r

abbrev pub put32 : ℕ → List ℕ → List ℕ
put32 v r = v / 2 ^ 24 % 256 ∷ put24 v r

abbrev pub put64 : ℕ → List ℕ → List ℕ
put64 v r = put32 (v / 2 ^ 32) (put32 v r)

abbrev pub word16 : ℕ → ℕ → ℕ
word16 a b = a * 2 ^ 8 + b

abbrev pub word32 : ℕ → ℕ → ℕ → ℕ → ℕ
word32 a b c d = (a * 2 ^ 8 + b) * 2 ^ 16 + word16 c d

abbrev pub get16 : List ℕ → Option ℕ
get16 (a ∷ b ∷ r) = some (word16 a b)
get16 _ = none

abbrev pub get32 : List ℕ → Option ℕ
get32 (a ∷ b ∷ c ∷ d ∷ r) = some (word32 a b c d)
get32 _ = none

abbrev pub get64 : List ℕ → Option ℕ
get64 (a ∷ b ∷ c ∷ d ∷ e ∷ f ∷ g ∷ h ∷ r) = some (word32 a b c d * 2 ^ 32 + word32 e f g h)
get64 _ = none

pub get16-put16 : (v : ℕ) (r : List ℕ) → v < 2 ^ 16 → get16 (put16 v r) ≡ some v
get16-put16 v r h = ap some (omega arith)

pub get32-put32 : (v : ℕ) (r : List ℕ) → v < 2 ^ 32 → get32 (put32 v r) ≡ some v
get32-put32 v r h = ap some (omega arith)

pub get64-put64 : (v : ℕ) (r : List ℕ) → v < 2 ^ 64 → get64 (put64 v r) ≡ some v
get64-put64 v r h = ap some (omega arith)
