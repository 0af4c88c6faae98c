-- ===== src/Chain/Tests.antt =====
-- The chain on two segments of two packets with a gap in between.
use vrtc_sdk.Prelude.{
  ℕ, ◌+◌, ◌≡◌, refl, arith, ◌⊎◌, true, false, Option, none, some, List, [], ◌∷◌, map, take,
}
use vrtc_sdk.Prelude.Int.{pos, add64}
use vrtc_sdk.Av.{Stream, Packet}
use vrtc_sdk.Chain.{Error, eof, seek_not_supported, Segment, Next, segment, got, ok, err, Result}
use vrtc_sdk.Chain.{new_chaining_demuxer, read_packet, read_loop, seek, emit, note_codecs}
use vrtc_sdk.Chain.Monotone.{chain_monotone, drain, NonDecreasing}
use vrtc_sdk.Chain.Delivery.{drain_payloads, remaining}
use vrtc_sdk.Chain.Seek.{seek_outcome}

abbrev packet_at : ℕ → ℕ → Packet
packet_at dts byte = record {
  key_frame = true;
  is_discontinuity = false;
  idx = 0;
  codec_type = 4;
  frame_id = pos 0;
  dts = pos dts;
  pts_offset = pos 0;
  duration = pos 40;
  wall_clock_time = 0;
  payload = byte ∷ [];
  analytics = none;
  new_codecs = none;
}

abbrev video : Stream
video = record { idx = 0; codec = record { codec_type = 4; tag = none; video = some (640, 480) } }

abbrev part : ℕ → Segment
part byte = record {
  codecs = ok (video ∷ []);
  reads = got (packet_at 0 byte) ∷ got (packet_at 40 (byte + 1)) ∷ [];
  close_error = none;
  seek_to_keyframe = none;
}

abbrev later_parts : List Next
later_parts = segment (part 3) (some (pos 5)) ∷ []

-- The timestamps of the second segment go on where the first one ended.
timestamps :
    map (λ p. p.dts) (drain 5 (new_chaining_demuxer (part 1) later_parts))
    ≡ pos 0 ∷ pos 40 ∷ pos 80 ∷ pos 120 ∷ []
unfolding drain new_chaining_demuxer read_packet read_loop emit note_codecs add64
timestamps = refl

discontinuities :
    map (λ p. p.is_discontinuity) (drain 5 (new_chaining_demuxer (part 1) later_parts))
    ≡ false ∷ false ∷ true ∷ false ∷ []
unfolding drain new_chaining_demuxer read_packet read_loop emit note_codecs add64
discontinuities = refl

chain_monotone_example : NonDecreasing 0 (drain 5 (new_chaining_demuxer (part 1) later_parts))
chain_monotone_example =
    chain_monotone 5 80 (part 1) later_parts
      (
        0,
        40,
        refl,
        refl,
        omega arith,
        omega arith,
        (40, 40, refl, refl, omega arith, omega arith, tt),
      )
      (
        (
          0,
          40,
          refl,
          refl,
          omega arith,
          omega arith,
          (40, 40, refl, refl, omega arith, omega arith, tt),
        ),
        tt,
      )
      (omega arith)

drain_payloads_example :
    map (λ p. p.payload) (drain 3 (new_chaining_demuxer (part 1) later_parts))
    ≡ take 3 (
        remaining
          (new_chaining_demuxer (part 1) later_parts).cur
          (new_chaining_demuxer (part 1) later_parts).source)
drain_payloads_example = drain_payloads 3 (new_chaining_demuxer (part 1) later_parts)

abbrev reopened : Option (Result Segment × List Next)
reopened = some (ok (part 3), [])

seek_outcome_example :
    let (r, c') = seek (new_chaining_demuxer (part 1) later_parts) reopened (pos 7) in
    ((r ≡ ok tt)
      × ((d : Segment) × (c'.cur ≡ some d))
      × (c'.dts_off ≡ pos 0)
      × (c'.last_end ≡ pos 0))
    ⊎ ((r ≡ err seek_not_supported)
        × (reopened ≡ none)
        × (c' ≡ new_chaining_demuxer (part 1) later_parts))
    ⊎ ((e : Error) × (r ≡ err e) × (read_packet c' ≡ (err eof, c')))
seek_outcome_example = seek_outcome (new_chaining_demuxer (part 1) later_parts) reopened (pos 7)
