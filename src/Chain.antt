-- ===== src/Chain.antt =====
-- av/chain/chain.go: one demuxer over a sequence of segment demuxers.
-- What the chain calls is not under src/ and enters as data: a segment demuxer is the answers that its
-- methods will give, a source the answers of its `Next`, in order. A list that has run out answers
-- io.EOF. The `Close` of an abandoned segment, whose result the code ignores, leaves no trace.
pub mod Monotone
pub mod Delivery
pub mod Seek
mod Tests
use vrtc_sdk.Prelude.{ℕ, ◌+◌, Bool, true, false, ◌&&◌, ◌||◌, not, Option, none, some, List, [], ◌∷◌}
use vrtc_sdk.Prelude.{◌==◌, if◌then◌else◌, length}
use vrtc_sdk.Prelude.Int.{ℤ, pos, ltb_ℤ, add64}
use vrtc_sdk.Av.{CodecData, Stream, Packet}
use text.Mathlib.Text.{◌==◌ as str_eq}

-- io.EOF, ErrSeekNotSupported, and the errors of the code that the chain calls.
pub data Error : Type 0 where
  eof seek_not_supported : Error
  other : ℕ → Error

pub data Result {ℓ} (A : Type ℓ) : Type ℓ where
  ok : A → Result A
  err : Error → Result A

-- One answer of a segment's `ReadPacket` before its io.EOF: a packet, or an error that is not io.EOF.
pub data Read : Type 0 where
  got : Packet → Read
  fail : ℕ → Read

pub record Segment : Type 0 where
  pub codecs : Result (List Stream)
  pub reads : List Read
  pub close_error : Option Error
  -- `SeekToKeyframe`, for a segment that is an fmp4 demuxer: an error, or the answers that follow.
  pub seek_to_keyframe : Option (ℤ → Result (List Read))

-- One answer of the source's `Next`, with the `LastGap` after it if the source is a GapDetector.
pub data Next : Type 0 where
  segment : Segment → Option ℤ → Next
  failed : Error → Next

pub record Chain : Type 0 where
  pub source : List Next
  pub cur : Option Segment
  pub dts_off : ℤ
  pub last_end : ℤ
  pub discontinuity : Bool
  pub prev_streams : Option (List Stream)
  pub pending_new_codecs : Option (List Stream)

pub new_chaining_demuxer : Segment → List Next → Chain
new_chaining_demuxer first source = record {
  source = source;
  cur = some first;
  dts_off = pos 0;
  last_end = pos 0;
  discontinuity = false;
  prev_streams = none;
  pending_new_codecs = none;
}

-- `ptOK && ntOK && pt.Tag() != nt.Tag()`.
pub tag_changed : CodecData → CodecData → Bool
tag_changed p n = elim p.tag [
  | none ↦ false
  | some a ↦ elim n.tag [ none ↦ false | some b ↦ not (str_eq a b) ]
]

pub size_changed : CodecData → CodecData → Bool
size_changed p n = elim p.video [
  | none ↦ false
  | some (w, h) ↦ elim n.video [ none ↦ false | some (v, g) ↦ not (w == v) || not (h == g) ]
]

pub stream_changed : Stream → Stream → Bool
unfolding tag_changed size_changed
stream_changed p n =
    not (p.idx == n.idx)
    || (not (p.codec.codec_type == n.codec.codec_type)
        || (tag_changed p.codec n.codec || size_changed p.codec n.codec))

-- The loop of `streamsChanged`, at equal lengths.
pub any_changed : List Stream → List Stream → Bool
unfolding stream_changed
any_changed (p ∷ ps) (n ∷ ns) = stream_changed p n || any_changed ps ns
any_changed _ _ = false

pub streams_changed : List Stream → List Stream → Bool
unfolding any_changed
streams_changed prev next = not (length prev == length next) || any_changed prev next

pub get_codecs : Chain → Result (List Stream) × Chain
get_codecs c = elim c.cur [
  | none ↦ (err eof, c)
  | some d ↦ elim d.codecs [
    | err e ↦ (err e, c)
    | ok streams ↦ (ok streams, record c { prev_streams = some streams })
  ]
]

-- A packet of the current segment, on its way out.
pub emit : Chain → Packet → Packet × Chain
emit c raw =
    let dts = add64 raw.dts c.dts_off in
    let end_ = add64 dts raw.duration in
    let new_codecs = elim c.pending_new_codecs as (λ _. Option (List Stream)) [
      | none ↦ raw.new_codecs
      | some s ↦ some s
    ] in
    (
      record raw {
        dts = dts;
        is_discontinuity = if c.discontinuity then true else raw.is_discontinuity;
        new_codecs = new_codecs;
      },
      record c {
        last_end = if ltb_ℤ c.last_end end_ then end_ else c.last_end;
        discontinuity = false;
        pending_new_codecs = none;
      },
    )

-- `c.prevStreams != nil && streamsChanged(...)`.
pub note_codecs : Chain → List Stream → Chain
note_codecs c new =
    let changed = elim c.prev_streams as (λ _. Bool) [
      | none ↦ false
      | some prev ↦ streams_changed prev new
    ] in
    record c {
      pending_new_codecs = if changed then some new else c.pending_new_codecs;
      prev_streams = some new;
    }

-- `gd.LastGap() > 0`, for a source that is a GapDetector.
pub is_gap : Option ℤ → Bool
is_gap none = false
is_gap (some gap) = ltb_ℤ (pos 0) gap

-- The loop of `ReadPacket`. Each round that does not return takes one answer of the source, so the
-- recursion is on the source, `more`, with the current segment's answers beside it.
pub read_loop : Chain → List Next → Segment → List Read → Result Packet × Chain
unfolding emit note_codecs is_gap
read_loop c more d (got raw ∷ rest) =
    let (pkt, c') = emit c raw in
    (ok pkt, record c' { source = more; cur = some (record d { reads = rest }) })
read_loop c more d (fail e ∷ rest) =
    (err (other e), record c { source = more; cur = some (record d { reads = rest }) })
read_loop c [] d [] = (err eof, record c { source = []; cur = none })
read_loop c (failed e ∷ more) d [] = (err e, record c { source = more; cur = none })
read_loop c (segment next gap ∷ more) d [] =
    let c' = record c { discontinuity = if is_gap gap then true else c.discontinuity } in
    elim next.codecs [
      | err e ↦ (err e, record c' { source = more; cur = some next })
      | ok streams ↦
          let c'' = note_codecs c' streams in
          read_loop (record c'' { dts_off = c.last_end }) more next next.reads
    ]

pub read_packet : Chain → Result Packet × Chain
unfolding read_loop
read_packet c = elim c.cur [ none ↦ (err eof, c) | some d ↦ read_loop c c.source d d.reads ]

pub close : Chain → Option Error × Chain
close c = elim c.cur [ none ↦ (none, c) | some d ↦ (d.close_error, record c { cur = none }) ]

-- The end of `Seek`, from the segment that `OpenAt` returned on.
pub seek_within : Chain → Segment → ℤ → Result (Unit {0}) × Chain
unfolding note_codecs
seek_within c d seek_pts = elim d.codecs [
  | err e ↦ (err e, c)
  | ok streams ↦
      let c' = note_codecs c streams in
      let done = λ (reads : List Read). record c' {
        cur = some (record d { reads = reads });
        dts_off = pos 0;
        last_end = pos 0;
      } in
      if ltb_ℤ (pos 0) seek_pts
      then elim d.seek_to_keyframe [
        | none ↦ (ok tt, done d.reads)
        | some seek ↦ elim (seek seek_pts) [ err e ↦ (err e, c') | ok reads ↦ (ok tt, done reads) ]
      ]
      else (ok tt, done d.reads)
]

-- `open_at` is the answer of a SeekableSegmentSource with the answers of `Next` that follow it, and
-- `none` a source that is no such thing.
pub seek : Chain → Option (Result Segment × List Next) → ℤ → Result (Unit {0}) × Chain
unfolding seek_within
seek c none seek_pts = (err seek_not_supported, c)
seek c (some (err e, more)) seek_pts = (err e, record c { source = more; cur = none })
seek c (some (ok d, more)) seek_pts =
    seek_within (record c { source = more; cur = none }) d seek_pts
