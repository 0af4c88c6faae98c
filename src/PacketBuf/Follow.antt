-- ===== src/PacketBuf/Follow.antt =====
-- A demuxer over the buffer, and a cursor on the stream of all packets ever written.
use vrtc_sdk.Prelude.{
  ℕ, zero, suc, ◌+◌, ◌-◌, ◌≡◌, refl, ap, sym, ◌∙◌, arith, Bool, none, some, List, [], ◌∷◌,
}
use vrtc_sdk.Prelude.{get_elem?, drop, max, ltb, if◌then◌else◌}
use mathlib.Core.Path.{ap₂}
use vrtc_sdk.Prelude.Scan.{count_while}
use vrtc_sdk.Av.{Packet}
use vrtc_sdk.PacketBuf.{
  round_at, Buffer, Demuxer, Round, returned, at_eof, skipped, waiting, read_round, start_cursor,
}
use vrtc_sdk.PacketBuf.Window.{Tracks}

-- One round at position `i` of the whole stream: what it does, and the position after it.
abbrev pub stream_round : List Packet → Bool → ℕ → ℕ → ℕ → Round × ℕ
stream_round history closed notify since i = elim (get_elem? history i) [
  | some p ↦ (if ltb p.wall_clock_time since then skipped else returned p, i + 1)
  | none ↦ (if closed then at_eof else waiting notify, i)
]

get_elem?-drop : (n i : ℕ) (xs : List Packet) → get_elem? (drop n xs) i ≡ get_elem? xs (n + i)
get_elem?-drop zero i xs = ap (get_elem? xs) (omega arith)
get_elem?-drop (suc n) i [] = refl
get_elem?-drop (suc n) i (x ∷ xs) =
    let e : suc n + i ≡ suc (n + i) = omega arith in rw e (get_elem?-drop n i xs)

-- The position that a round reads: the demuxer's cursor, or the first packet still buffered if it
-- fell behind; at the start the first buffered packet that is not before `since`.
abbrev pub position : Buffer → Demuxer → ℕ
position b d =
    if d.started
    then max d.cursor b.base_offset
    else b.base_offset + count_while (λ p. ltb p.wall_clock_time d.since) b.pkts

round_at_stream :
    (history : List Packet) (b : Buffer) (d : Demuxer)
    → Tracks history b
    → ((round_at b d).0, (round_at b d).1.cursor)
      ≡ stream_round history b.closed b.notify d.since (max d.cursor b.base_offset)
unfolding round_at
round_at_stream history b d t = ground (arith, corrected, there)
  where
    i : ℕ
    i = max d.cursor b.base_offset

    corrected : (if ltb d.cursor b.base_offset then b.base_offset else d.cursor) ≡ i
    corrected = ground arith

    there : get_elem? b.pkts (i - b.base_offset) ≡ get_elem? history i
    there =
        ap (λ l. get_elem? l (i - b.base_offset)) (sym t.held)
        ∙ get_elem?-drop b.base_offset (i - b.base_offset) history
        ∙ ap (get_elem? history) (omega arith)

start_cursor-position :
    (b : Buffer) (d : Demuxer)
    → (max (start_cursor b d).cursor b.base_offset ≡ position b d)
      × ((start_cursor b d).since ≡ d.since)
unfolding start_cursor
start_cursor-position b d = ground arith

-- One round of `ReadPacket` over a buffer that holds the stream but for its evicted front is a step of
-- a cursor on the whole stream, at the demuxer's position: it hands out the packet that stands there
-- and moves past it, passes over one that is before `since`, and waits, or ends if the buffer is
-- closed, only at the end of the stream.
pub read_round_stream :
    (history : List Packet) (b : Buffer) (d : Demuxer)
    → Tracks history b
    → ((read_round b d).0, (read_round b d).1.cursor)
      ≡ stream_round history b.closed b.notify d.since (position b d)
unfolding read_round
read_round_stream history b d t =
    let (at, since) = start_cursor-position b d in
    round_at_stream history b (start_cursor b d) t
    ∙ ap₂ (λ k i. stream_round history b.closed b.notify k i) since at
