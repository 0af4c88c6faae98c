-- ===== src/Fmp4/Muxer/Written.antt =====
-- The life of a muxer: its header, a list of packets, and its trailer.
use vrtc_sdk.Prelude.{
  ℕ, ◌+◌, ◌≡◌, refl, sym, ap, ◌∙◌, inl, inr, Bool, true, false, not, ◌&&◌, ◌||◌, Option, none, some,
  List, [], ◌∷◌, ◌++◌, append-nil, append_assoc,
}
use vrtc_sdk.Prelude.{◌==◌, if◌then◌else◌, Option-cases, Bool-cases, length}
use vrtc_sdk.Av.{Packet}
use vrtc_sdk.Fmp4.Track.{
  Codec, h264, h265, aac, flac, other, Track, find_track, has_any_samples, has_video_tracks,
  new_tracks, new_track_state,
}
use vrtc_sdk.Fmp4.Track.Bodies.{bodies_idle}
use vrtc_sdk.Fmp4.Track.Video.{video_of, video_of-find_track}
use vrtc_sdk.Fmp4.Muxer.{
  unsupported_codec, init_segment, Muxer, new_muxer, write_packet, write_header, write_trailer,
  is_awaited, write_sample,
}
use vrtc_sdk.Fmp4.Muxer.Conserve.{
  emitted, total, total_waiting, total_started, write_trailer-emitted, Adds, gain,
  write_sample-Adds,
}

-- The writes of the packets `ps`, all of which reach the writer.
unfoldable pub write_all : Muxer → List Packet → Muxer
write_all m [] = m
write_all m (p ∷ ps) = write_all (write_packet m p true).1 ps

pub record_all : List (ℕ × Codec) → List Packet → Muxer
unfolding write_all
record_all streams ps =
    (write_trailer (write_all (write_header new_muxer streams true).1 ps) true).1

-- Whether a packet is taken, by what is known of its stream and whether there was no video key frame.
unfoldable pub admits : Option Bool → Bool → Packet → Bool
admits none waiting p = false
admits (some video) waiting p = not waiting || (video && p.key_frame)

-- The packets that are taken: those of known streams, from the first video key frame on.
unfoldable pub kept : (ℕ → Option Bool) → Bool → List Packet → List Packet
unfolding admits
kept kind waiting [] = []
kept kind waiting (p ∷ ps) =
    let later = kept kind false ps in
    let same = kept kind waiting ps in if admits (kind p.idx) waiting p then p ∷ later else same

-- The payloads of the packets of the stream `i`.
unfoldable pub payloads_of : ℕ → List Packet → List (List ℕ)
payloads_of i [] = []
payloads_of i (p ∷ ps) = gain i p ++ payloads_of i ps

-- A muxer that writes.
pub record Runs (m : Muxer) : Type 0 where
  pub written : m.written ≡ true
  pub live : m.closed ≡ false

write_packet_unknown :
    (m : Muxer) (p : Packet)
    → Runs m
    → find_track p.idx m.tracks ≡ none
    → (write_packet m p true).1 ≡ m
unfolding write_packet
write_packet_unknown m p r h = simp (r.written, r.live, h)

write_packet_dropped :
    (m : Muxer) (p : Packet) (ts : Track)
    → Runs m
    → find_track p.idx m.tracks ≡ some ts
    → is_awaited m ts p ≡ false
    → (write_packet m p true).1 ≡ m
unfolding write_packet
write_packet_dropped m p ts r h k = simp (r.written, r.live, h, k)

write_packet_taken :
    (m : Muxer) (p : Packet) (ts : Track)
    → Runs m
    → find_track p.idx m.tracks ≡ some ts
    → is_awaited m ts p ≡ true
    → (write_packet m p true).1 ≡ (write_sample m ts p true).1
unfolding write_packet
write_packet_taken m p ts r h k = simp (r.written, r.live, h, k)

Runs-Adds : {i : ℕ} {g : List (List ℕ)} {m n : Muxer} → Runs m → Adds i g m n → Runs n
Runs-Adds r a = record { written = a.written ∙ r.written; live = a.closed ∙ r.live }

kept_taken :
    (kind : ℕ → Option Bool) (w : Bool) (p : Packet) (ps : List Packet)
    → admits (kind p.idx) w p ≡ true
    → kept kind w (p ∷ ps) ≡ p ∷ kept kind false ps
unfolding kept
kept_taken kind w p ps h = rw h

kept_dropped :
    (kind : ℕ → Option Bool) (w : Bool) (p : Packet) (ps : List Packet)
    → admits (kind p.idx) w p ≡ false
    → kept kind w (p ∷ ps) ≡ kept kind w ps
unfolding kept
kept_dropped kind w p ps h = rw h

kept-nil : (i : ℕ) (kind : ℕ → Option Bool) (w : Bool) → payloads_of i (kept kind w []) ≡ []
unfolding kept payloads_of
kept-nil i kind w = refl

admits_unknown :
    (ts : List Track) (w : Bool) (p : Packet)
    → find_track p.idx ts ≡ none
    → admits (video_of ts p.idx) w p ≡ false
unfolding admits
admits_unknown ts w p e = rw (video_of-find_track ts p.idx, e) refl

admits-is_awaited :
    (m : Muxer) (p : Packet) (t : Track)
    → find_track p.idx m.tracks ≡ some t
    → admits (video_of m.tracks p.idx) m.waiting_for_keyframe p ≡ is_awaited m t p
unfolding admits is_awaited
admits-is_awaited m p t e = rw (video_of-find_track m.tracks p.idx, e) refl

pub write_all-total :
    (i : ℕ) (kind : ℕ → Option Bool) (m : Muxer) (ps : List Packet)
    → Runs m
    → ((j : ℕ) → video_of m.tracks j ≡ kind j)
    → (total i (write_all m ps) ≡ total i m ++ payloads_of i (kept kind m.waiting_for_keyframe ps))
      × Runs (write_all m ps)
unfolding write_all payloads_of
write_all-total i kind m [] r k =
    (rw (kept-nil i kind m.waiting_for_keyframe) (sym (append-nil (total i m))), r)
write_all-total i kind m (p ∷ ps) r k = elim (Option-cases (find_track p.idx m.tracks)) [
  | inl e ↦
      let same = write_packet_unknown m p r e in
      let d : admits (kind p.idx) m.waiting_for_keyframe p ≡ false =
        rw (sym (k p.idx)) (admits_unknown m.tracks m.waiting_for_keyframe p e) in
      rw (same, kept_dropped kind m.waiting_for_keyframe p ps d) (write_all-total i kind m ps r k)
  | inr e ↦ elim (Bool-cases (is_awaited m e.0 p)) [
    | inr b ↦
        let same = write_packet_dropped m p e.0 r e.1 b in
        let d : admits (kind p.idx) m.waiting_for_keyframe p ≡ false =
          rw (sym (k p.idx)) (admits-is_awaited m p e.0 e.1 ∙ b) in
        rw (same, kept_dropped kind m.waiting_for_keyframe p ps d) (write_all-total i kind m ps r k)
    | inl b ↦
        let same = write_packet_taken m p e.0 r e.1 b in
        let d : admits (kind p.idx) m.waiting_for_keyframe p ≡ true =
          rw (sym (k p.idx)) (admits-is_awaited m p e.0 e.1 ∙ b) in
        let r' : Runs (record m { waiting_for_keyframe = false }) = record {
          written = r.written;
          live = r.live;
        } in
        let a = write_sample-Adds i m e.0 p e.1 in
        let m' = (write_sample m e.0 p true).1 in
        let later = write_all-total i kind m' ps (Runs-Adds r' a) (λ j. a.kinds j ∙ k j) in
        rw (same, kept_taken kind m.waiting_for_keyframe p ps d)
          (
            later.0
                ∙ rw (a.sum, a.waiting, total_waiting i m false)
                    (append_assoc (total i m) (gain i p) (payloads_of i (kept kind false ps))),
            later.1,
          )
  ]
]

new_tracks_idle :
    (streams : List (ℕ × Codec)) (id : ℕ) → has_any_samples (new_tracks streams id) ≡ false
unfolding new_tracks new_track_state has_any_samples
new_tracks_idle [] id = refl
new_tracks_idle ((idx, h264 v) ∷ streams) id = rw (new_tracks_idle streams (id + 1))
new_tracks_idle ((idx, h265 v) ∷ streams) id = rw (new_tracks_idle streams (id + 1))
new_tracks_idle ((idx, aac a) ∷ streams) id = rw (new_tracks_idle streams (id + 1))
new_tracks_idle ((idx, flac a) ∷ streams) id = rw (new_tracks_idle streams (id + 1))
new_tracks_idle ((idx, other) ∷ streams) id = new_tracks_idle streams id

header_refused :
    (streams : List (ℕ × Codec))
    → (length (new_tracks streams 1) == 0) ≡ true
    → (write_header new_muxer streams true).0 ≡ some unsupported_codec
unfolding write_header new_muxer
header_refused streams e = rw e

started :
    (streams : List (ℕ × Codec))
    → (write_header new_muxer streams true).0 ≡ none
    → (write_header new_muxer streams true).1 ≡ record new_muxer {
      tracks = new_tracks streams 1;
      written = true;
      waiting_for_keyframe = has_video_tracks (new_tracks streams 1);
      output = init_segment (new_tracks streams 1) ∷ [];
    }
unfolding write_header new_muxer
started streams h = elim (Bool-cases (length (new_tracks streams 1) == 0)) [
  | inl e ↦ let q = header_refused streams e in absurd cc
  | inr e ↦ rw e
]

-- When the header can be written and every write reaches the writer, the fragments that a muxer has
-- written after its trailer hold for each stream exactly the payloads of the packets that were taken, in
-- order: those of streams with a track, from the first video key frame on if there is a video track.
pub record_all-emitted :
    (streams : List (ℕ × Codec)) (ps : List Packet) (i : ℕ)
    → (write_header new_muxer streams true).0 ≡ none
    → emitted i (record_all streams ps).output
      ≡ payloads_of i
          (kept (video_of (new_tracks streams 1)) (has_video_tracks (new_tracks streams 1)) ps)
unfolding record_all new_muxer
record_all-emitted streams ps i h =
    let ts = new_tracks streams 1 in
    let m = record new_muxer {
      tracks = ts;
      written = true;
      waiting_for_keyframe = has_video_tracks ts;
      output = init_segment ts ∷ [];
    } in
    let after =
      write_all-total i (video_of ts) m ps (record { written = refl; live = refl }) (λ j. refl) in
    ap (λ n. emitted i (write_trailer (write_all n ps) true).1.output) (started streams h)
    ∙ write_trailer-emitted i (write_all m ps) after.1.live
    ∙ after.0
    ∙ ap (λ l. l ++ payloads_of i (kept (video_of ts) (has_video_tracks ts) ps))
        (total_started i ts ∙ bodies_idle i ts (new_tracks_idle streams 1))
