-- ===== src/Rtp/H264/Bounds.antt =====
-- The counters and limits of the decoder.
use vrtc_sdk.Prelude.{ℕ, ◌+◌, ◌≤◌, ◌≡◌, arith, Bool, true, false, not, ◌&&◌, List, [], ◌∷◌, ◌++◌}
use vrtc_sdk.Prelude.{length, length-append, ◌==◌, if◌then◌else◌}
use vrtc_sdk.Rtp.H264.{
  need_more_packets, Decoder, RtpPacket, Result, ok, err, Answer, max_access_unit_size,
  max_nalus_per_au, access_unit_size,
}
use vrtc_sdk.Rtp.H264.{
  reset_fragments, reset_frame_buffer, finish_fua, start_fua, continue_fua, decode_fua,
  decode_stapa, decode_nalus,
}
use vrtc_sdk.Rtp.H264.{add_to_frame_buffer, collect, decode}

pub record IsValid (d : Decoder) : Type 0 where
  pub len_is : d.frame_buffer_len ≡ length d.frame_buffer
  pub size_is : d.frame_buffer_size ≡ access_unit_size d.frame_buffer
  pub few : d.frame_buffer_len ≤ max_nalus_per_au
  pub small : d.frame_buffer_size ≤ max_access_unit_size
  pub fragments_are : d.fragments_size ≡ access_unit_size d.fragments

pub access_unit_size-append :
    (ns ms : List (List ℕ))
    → access_unit_size (ns ++ ms) ≡ access_unit_size ns + access_unit_size ms
unfolding access_unit_size
access_unit_size-append [] ms = omega arith
access_unit_size-append (n ∷ ns) ms = omega (arith, access_unit_size-append ns ms)

access_unit_size-one : (n : List ℕ) → access_unit_size (n ∷ []) ≡ length n
unfolding access_unit_size
access_unit_size-one n = omega arith

continue_fua-IsValid :
    (d : Decoder) (pkt : RtpPacket) (b1 : ℕ) (rest : List ℕ)
    → IsValid d
    → IsValid (continue_fua d pkt b1 rest).1
unfolding continue_fua finish_fua reset_fragments access_unit_size
continue_fua-IsValid d pkt b1 rest v =
    ground (arith, access_unit_size-append d.fragments (rest ∷ []), access_unit_size-one rest)

start_fua-IsValid :
    (d : Decoder) (pkt : RtpPacket) (b0 b1 : ℕ) (rest : List ℕ)
    → IsValid d
    → IsValid (start_fua d pkt b0 b1 rest).1
unfolding start_fua finish_fua reset_fragments access_unit_size
start_fua-IsValid d pkt b0 b1 rest v = ground arith

decode_fua-IsValid :
    (d : Decoder) (pkt : RtpPacket) (payload : List ℕ)
    → IsValid d
    → IsValid (decode_fua d pkt payload).1
unfolding decode_fua reset_fragments access_unit_size
decode_fua-IsValid d pkt (b0 ∷ b1 ∷ rest) v =
    ground (arith, start_fua-IsValid d pkt b0 b1 rest v, continue_fua-IsValid d pkt b1 rest v)
decode_fua-IsValid d pkt _ v = ground arith

decode_stapa-IsValid :
    (d : Decoder) (payload : List ℕ) → IsValid d → IsValid (decode_stapa d payload).1
unfolding decode_stapa reset_fragments access_unit_size
decode_stapa-IsValid d payload v = ground arith

decode_nalus-IsValid :
    (d : Decoder) (pkt : RtpPacket) (payload : List ℕ)
    → IsValid d
    → IsValid (decode_nalus d pkt payload).1
unfolding decode_nalus reset_fragments access_unit_size
decode_nalus-IsValid d pkt [] v = ground arith
decode_nalus-IsValid d pkt (b0 ∷ rest) v =
    ground (arith, decode_fua-IsValid d pkt (b0 ∷ rest) v, decode_stapa-IsValid d rest v)

reset_frame_buffer-IsValid : (d : Decoder) → IsValid d → IsValid (reset_frame_buffer d)
unfolding reset_frame_buffer access_unit_size
reset_frame_buffer-IsValid d v = ground arith

add_to_frame_buffer-IsValid :
    (d : Decoder) (nalus : List (List ℕ)) (ts : ℕ)
    → IsValid d
    → IsValid (add_to_frame_buffer d nalus (length nalus) ts).1
unfolding add_to_frame_buffer
add_to_frame_buffer-IsValid d nalus ts v = ground (
  arith,
  reset_frame_buffer-IsValid d v,
  access_unit_size-append d.frame_buffer nalus,
  length-append d.frame_buffer nalus,
)

-- An access unit within the limits.
abbrev pub IsBounded : List (List ℕ) → Type 0
IsBounded au = (length au ≤ max_nalus_per_au) × (access_unit_size au ≤ max_access_unit_size)

abbrev pub Sound : Answer → Type 0
Sound (ok au, d) = IsBounded au × IsValid d
Sound (err e, d) = IsValid d

IsValid-IsBounded : (d : Decoder) → IsValid d → IsBounded d.frame_buffer
IsValid-IsBounded d v = (omega (arith, v.len_is, v.few), omega (arith, v.size_is, v.small))

collect-Sound :
    (d : Decoder) (pkt : RtpPacket) (nalus : List (List ℕ))
    → IsValid d
    → Sound (collect d pkt nalus)
unfolding collect
collect-Sound d pkt nalus v =
    by_split (not (length d.frame_buffer == 0) && not (pkt.timestamp == d.frame_buffer_timestamp))
  where
    by_marker :
        (m : Bool) (d' : Decoder)
        → IsValid d'
        → Sound (
            if not m
            then (err need_more_packets, d')
            else (ok d'.frame_buffer, reset_frame_buffer d'))
    by_marker true d' w = (IsValid-IsBounded d' w, reset_frame_buffer-IsValid d' w)
    by_marker false d' w = w

    added :
        (s : Bool) (a : Result (Unit {0}) × Decoder)
        → IsValid a.1
        → Sound (elim a.0 [
          | err e ↦ (err e, a.1)
          | ok _ ↦
              if s
              then (ok d.frame_buffer, a.1)
              else if not pkt.marker
              then (err need_more_packets, a.1)
              else (ok a.1.frame_buffer, reset_frame_buffer a.1)
        ])
    added s (err e, d') w = w
    added true (ok u, d') w = (IsValid-IsBounded d v, w)
    added false (ok u, d') w = by_marker pkt.marker d' w

    by_split :
        (s : Bool)
        → let a =
            add_to_frame_buffer
              (if s then reset_frame_buffer d else d)
              nalus
              (length nalus)
              pkt.timestamp in
          Sound (elim a.0 [
            | err e ↦ (err e, a.1)
            | ok _ ↦
                if s
                then (ok d.frame_buffer, a.1)
                else if not pkt.marker
                then (err need_more_packets, a.1)
                else (ok a.1.frame_buffer, reset_frame_buffer a.1)
          ])
    by_split true = added true _ (
        add_to_frame_buffer-IsValid (reset_frame_buffer d) nalus pkt.timestamp
          (reset_frame_buffer-IsValid d v))
    by_split false = added false _ (add_to_frame_buffer-IsValid d nalus pkt.timestamp v)

-- `Decode` keeps the invariant on every branch, errors included, from any packet: the counters are the
-- number and the total size of the buffered NALUs and fragments, and a frame buffer, also one that is
-- returned, has at most 512 NALUs and 4 MiB.
pub decode-Sound : (d : Decoder) (pkt : RtpPacket) → IsValid d → Sound (decode d pkt)
unfolding decode
decode-Sound d pkt v =
    go (decode_nalus d pkt pkt.payload) (decode_nalus-IsValid d pkt pkt.payload v)
  where
    go :
        (a : Answer)
        → IsValid a.1
        → Sound (elim a.0 [ err e ↦ (err e, a.1) | ok nalus ↦ collect a.1 pkt nalus ])
    go (err e, d') w = w
    go (ok nalus, d') w = collect-Sound d' pkt nalus w
