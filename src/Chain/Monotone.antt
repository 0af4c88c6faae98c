-- ===== src/Chain/Monotone.antt =====
-- Timestamps of the packets that a chain hands out.
use vrtc_sdk.Prelude.{ℕ, zero, suc, ◌+◌, ◌*◌, ◌^◌, ◌≤◌, ◌<◌, ◌≡◌, refl, ap, arith}
use vrtc_sdk.Prelude.{
  ◌⊎◌, inl, inr, true, Option, none, some, List, [], ◌∷◌, length, All, max, if◌then◌else◌, max,
}
use vrtc_sdk.Prelude.Int.{ℤ, pos, add64, add64_pos}
use vrtc_sdk.Av.{Stream, Packet}
use mathlib.Core.Path.{subst}
use vrtc_sdk.Chain.{
  new_chaining_demuxer, Error, Chain, Segment, Next, segment, failed, Read, got, fail, ok, err,
  Result, read_loop, read_packet, emit, note_codecs, is_gap,
}

-- The packets of a segment start at `m` or later, their timestamps do not go back, and all of them end
-- by `span`.
abbrev pub Ordered : ℕ → ℕ → List Read → Type 0
Ordered span m [] = Unit
Ordered span m (fail e ∷ r) = Ordered span m r
Ordered span m (got p ∷ r) =
    (x : ℕ) × (d : ℕ) × (p.dts ≡ pos x)
    × (p.duration ≡ pos d)
    × (m ≤ x)
    × (x + d ≤ span)
    × Ordered span x r

abbrev pub OrderedNext : ℕ → Next → Type 0
OrderedNext span (failed e) = Unit
OrderedNext span (segment d gap) = Ordered span 0 d.reads

-- `last` is the newest timestamp handed out. The offset and one span for each segment left fit int64.
pub record Ahead (span last : ℕ) (c : Chain) (more : List Next) (reads : List Read) : Type 0 where
  pub off : ℕ
  pub end_ : ℕ
  pub from : ℕ
  pub off_is : c.dts_off ≡ pos off
  pub end_is : c.last_end ≡ pos end_
  pub last_le : last ≤ end_
  pub end_le : end_ ≤ off + span
  pub start_le : last ≤ off + from
  pub room : off + suc (length more) * span < 2 ^ 63
  pub ordered : Ordered span from reads
  pub later : All (OrderedNext span) more

-- What `ReadPacket` may answer: a packet that is not older than `last`, and a state to go on from.
abbrev pub reads_of : Option Segment → List Read
reads_of none = []
reads_of (some d) = d.reads

abbrev pub IsAhead : ℕ → ℕ → Chain → Type 0
IsAhead span last c = Ahead span last c c.source (reads_of c.cur)

abbrev Follows : ℕ → ℕ → Result Packet × Chain → Type 0
Follows span last (err e, c) = Unit
Follows span last (ok p, c) = (x : ℕ) × (p.dts ≡ pos x) × (last ≤ x) × IsAhead span x c

pub Result-cases {ℓ} :
    {A : Type ℓ} (r : Result A) → ((e : Error) × (r ≡ err e)) ⊎ ((a : A) × (r ≡ ok a))
Result-cases (ok a) = inr (a, refl)
Result-cases (err e) = inl (e, refl)

emit-Ahead :
    (span last : ℕ) (c : Chain) (more : List Next) (d : Segment) (raw : Packet) (rest : List Read)
    → Ahead span last c more (got raw ∷ rest)
    → Follows span last (read_loop c more d (got raw ∷ rest))
unfolding read_loop emit
emit-Ahead span last c more d raw rest a =
    let (x, dur, dts_is, dur_is, from_le, end_le, order) = a.ordered in
    let sum : add64 raw.dts c.dts_off ≡ pos (x + a.off) =
      rw (dts_is, a.off_is) (add64_pos x a.off (omega (arith, a.room, end_le))) in
    let sum' : add64 (pos (x + a.off)) raw.duration ≡ pos (x + a.off + dur) =
      rw dur_is (add64_pos (x + a.off) dur (omega (arith, a.room, end_le))) in
    (
      x + a.off,
      sum,
      omega (arith, a.start_le, from_le),
      record {
        off = a.off;
        end_ = max a.end_ (x + a.off + dur);
        from = x;
        off_is = a.off_is;
        end_is = rw (sum, sum', a.end_is) (ground arith);
        last_le = omega arith;
        end_le = omega (arith, a.end_le, end_le);
        start_le = omega arith;
        room = a.room;
        ordered = order;
        later = a.later;
      },
    )

advance :
    (span last : ℕ) (c : Chain) (next : Segment) (gap : Option ℤ) (more : List Next)
    (streams : List Stream)
    → Ahead span last c (segment next gap ∷ more) []
    → let c' = record c { discontinuity = if is_gap gap then true else c.discontinuity } in
      Ahead span last (record (note_codecs c' streams) { dts_off = c.last_end }) more next.reads
unfolding note_codecs
advance span last c next gap more streams a = record {
  off = a.end_;
  end_ = a.end_;
  from = 0;
  off_is = a.end_is;
  end_is = a.end_is;
  last_le = a.last_le;
  end_le = omega arith;
  start_le = omega (arith, a.last_le);
  room = omega (arith, a.room, a.end_le);
  ordered = a.later.0;
  later = a.later.1;
}

-- The chain that goes on with the segment `next`.
abbrev pub entered : Chain → Option ℤ → List Stream → Chain
entered c gap streams =
    let c' = record c { discontinuity = if is_gap gap then true else c.discontinuity } in
    record (note_codecs c' streams) { dts_off = c.last_end }

pub read_loop_next :
    (c : Chain) (next : Segment) (gap : Option ℤ) (more : List Next) (d : Segment)
    (streams : List Stream)
    → next.codecs ≡ ok streams
    → read_loop c (segment next gap ∷ more) d []
      ≡ read_loop (entered c gap streams) more next next.reads
unfolding read_loop
read_loop_next c next gap more d streams e = rw (e, read_loop)

read_loop_ends :
    (span last : ℕ) (c : Chain) (more : List Next) (d : Segment) (reads : List Read)
    → (e : Error) × ((read_loop c more d reads).0 ≡ err e)
    → Follows span last (read_loop c more d reads)
read_loop_ends span last c more d reads (e, h) = ends (read_loop c more d reads) h
  where
    ends : (r : Result Packet × Chain) → r.0 ≡ err e → Follows span last r
    ends (ok p, c') h = absurd (cc)
    ends (err e', c') h = tt

-- One call of `ReadPacket`, whatever number of segments it passes.
read_loop-Ahead :
    (span last : ℕ) (c : Chain) (more : List Next) (d : Segment) (reads : List Read)
    → Ahead span last c more reads
    → Follows span last (read_loop c more d reads)
read_loop-Ahead span last c more d (got raw ∷ rest) a = emit-Ahead span last c more d raw rest a
read_loop-Ahead span last c more d (fail e ∷ rest) a = unfold read_loop in tt
read_loop-Ahead span last c [] d [] a = unfold read_loop in tt
read_loop-Ahead span last c (failed e ∷ more) d [] a = unfold read_loop in tt
read_loop-Ahead span last c (segment next gap ∷ more) d [] a = elim (Result-cases next.codecs) [
  | inl (e, is_err) ↦
      read_loop_ends span last c (segment next gap ∷ more) d []
        (e, unfold read_loop in rw (is_err, read_loop))
  | inr (streams, is_ok) ↦ rw (read_loop_next c next gap more d streams is_ok) (
      read_loop-Ahead span last (entered c gap streams) more next next.reads
        (advance span last c next gap more streams a))
]

-- A client that reads until an error, at most `n` packets.
unfoldable pub drain : ℕ → Chain → List Packet
drain zero c = []
drain (suc n) c = let (r, c') = read_packet c in elim r [ ok p ↦ p ∷ drain n c' | err e ↦ [] ]

-- Timestamps from `last` on that never go back.
abbrev pub NonDecreasing : ℕ → List Packet → Type 0
NonDecreasing last [] = Unit
NonDecreasing last (p ∷ ps) = (x : ℕ) × (p.dts ≡ pos x) × (last ≤ x) × NonDecreasing x ps

read_packet_ahead :
    (span last : ℕ) (c : Chain) → IsAhead span last c → Follows span last (read_packet c)
unfolding read_packet
read_packet_ahead span last c a = by_cur c.cur refl
  where
    by_cur : (cur : Option Segment) → c.cur ≡ cur → Follows span last (read_packet c)
    by_cur none e = rw (e, read_packet) tt
    by_cur (some d) e =
        let a' = subst (λ r. Ahead span last c c.source r) (ap reads_of e) a in
        rw (e, read_packet) (read_loop-Ahead span last c c.source d d.reads a')

drain-NonDecreasing :
    (n span last : ℕ) (c : Chain) → IsAhead span last c → NonDecreasing last (drain n c)
unfolding drain
drain-NonDecreasing zero span last c a = tt
drain-NonDecreasing (suc n) span last c a =
    go (read_packet c) (read_packet_ahead span last c a) (λ x c'. drain-NonDecreasing n span x c')
  where
    go :
        (r : Result Packet × Chain)
        → Follows span last r
        → ((x : ℕ) (c' : Chain) → IsAhead span x c' → NonDecreasing x (drain n c'))
        → NonDecreasing last (elim r.0 [ ok p ↦ p ∷ drain n r.1 | err e ↦ [] ])
    go (ok p, c') (x, dts_is, le, ahead) rest = (x, dts_is, le, rest x c' ahead)
    go (err e, c') f rest = tt

-- Over segments whose own timestamps start at 0 or later, do not go back and end by `span`, with room
-- for one span a segment below 2 ^ 63, the first `n` packets that a new chain hands out, up to the first
-- error, have timestamps that never go back, across every segment boundary, gap and codec change.
pub chain_monotone :
    (n span : ℕ) (first : Segment) (source : List Next)
    → Ordered span 0 first.reads
    → All (OrderedNext span) source
    → suc (length source) * span < 2 ^ 63
    → NonDecreasing 0 (drain n (new_chaining_demuxer first source))
unfolding new_chaining_demuxer
chain_monotone n span first source order later room =
    drain-NonDecreasing n span 0 (new_chaining_demuxer first source) (record {
      off = 0;
      end_ = 0;
      from = 0;
      off_is = refl;
      end_is = refl;
      last_le = omega arith;
      end_le = omega arith;
      start_le = omega arith;
      room = omega (arith, room);
      ordered = order;
      later = later;
    })
