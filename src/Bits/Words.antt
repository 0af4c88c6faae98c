-- ===== src/Bits/Words.antt =====
-- av/utils/bits/bits.go.
use vrtc_sdk.Prelude.{
  ℕ, zero, suc, ◌+◌, ◌-◌, ◌*◌, ◌/◌, ◌%◌, ◌^◌, ◌&&◌, Option, none, some, ◌>>=◌, List, [], ◌∷◌, ◌++◌,
  ltb, ◌==◌, if◌then◌else◌, length, take, drop, bit_or, bit_xor,
}

-- `Reader`: the bits that were read and not given out, and how many there are.
pub record Reader : Type 0 where
  pub source : List ℕ
  pub n : ℕ
  pub bits : ℕ

-- The loop that takes bytes in.
unfoldable pub shift_in : ℕ → List ℕ → ℕ
shift_in bits [] = bits
shift_in bits (b ∷ r) = shift_in (bit_or (bits * 2 ^ 8 % 2 ^ 64) b) r

-- The state with enough bits for `n`, if the source has them.
unfoldable pub refill : ℕ → Reader → Option Reader
unfolding shift_in
refill n s =
    if ltb s.n n
    then (let want = (n - s.n + 7) / 8 in
        if ltb (length s.source) want
        then none
        else some (record {
          source = drop want s.source;
          n = s.n + want * 8;
          bits = shift_in s.bits (take want s.source);
        }))
    else some s

-- `ReadBits64`.
unfoldable pub read_bits64 : ℕ → Reader → Option (ℕ × Reader)
unfolding refill
read_bits64 n s = refill n s >>= λ r.
    let bits = r.bits / 2 ^ (r.n - n) in
    some (bits, record r { n = r.n - n; bits = bit_xor r.bits (bits * 2 ^ (r.n - n) % 2 ^ 64) })

-- `Writer`: what was written, and the bits that wait.
pub record Writer : Type 0 where
  pub sink : List ℕ
  pub n : ℕ
  pub bits : ℕ

-- The low `want` bytes of a word.
unfoldable pub word_bytes : ℕ → ℕ → List ℕ
word_bytes zero bits = []
word_bytes (suc want) bits = bits / 2 ^ (want * 8) % 256 ∷ word_bytes want bits

-- `FlushBits`.
unfoldable pub flush_bits : Writer → Writer
unfolding word_bytes
flush_bits s = if s.n == 0 then s else record s {
  sink =
      s.sink
      ++ word_bytes ((s.n + 7) / 8)
          (if s.n % 8 == 0 then s.bits else s.bits * 2 ^ (8 - s.n % 8) % 2 ^ 64);
  n = 0;
}

-- `WriteBits64`; at n = 64 the mask is left out, and a shift by 64 gives 0.
unfoldable pub write_bits64 : ℕ → ℕ → Writer → Writer
unfolding flush_bits
write_bits64 bits n s =
    let put : ℕ → ℕ → Writer → Writer =
      λ b k w. record w { n = w.n + k; bits = bit_or (w.bits * 2 ^ k % 2 ^ 64) b } in
    if ltb 64 (s.n + n)
    then (let move = 64 - s.n in
        let staged =
          if move == 0
          then s.bits
          else bit_or (s.bits * 2 ^ move % 2 ^ 64) (bits / 2 ^ (n - move)) in
        let rest = n - move in
        put (if ltb 0 rest && ltb rest 64 then bits % 2 ^ rest else bits) rest
          (flush_bits (record s { n = 64; bits = staged })))
    else put bits n s

-- `Write`.
unfoldable pub write : List ℕ → Writer → Writer
unfolding write_bits64
write [] s = s
write (b ∷ p) s = write p (write_bits64 b 8 s)
